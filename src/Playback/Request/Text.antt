-- ===== src/Playback/Request/Text.antt =====
-- Go's strings package on ASCII texts, as internal/playback/server.go uses it.
use record_storage.Common.{
  ℕ, ◌+◌, ◌==◌, Bool, ◌||◌, ◌&&◌, List, [], ◌∷◌, Bytes, leb, length, starts_with, drop,
  if◌then◌else◌,
}
use mathlib.Core.List.{reverse}

drop_while : (ℕ → Bool) → Bytes → Bytes
drop_while p [] = []
drop_while p (b ∷ bs) = let rest = drop_while p bs in if p b then rest else b ∷ bs

trim : (ℕ → Bool) → Bytes → Bytes
trim p bs = reverse (drop_while p (reverse (drop_while p bs)))

-- space, and the control characters from tab to carriage return
is_space : ℕ → Bool
is_space b = (b == 32) || (leb 9 b && leb b 13)

-- strings.TrimSpace
unfoldable pub trim_space : Bytes → Bytes
unfolding trim drop_while is_space
trim_space = trim is_space

-- strings.Trim(text, "/")
unfoldable pub trim_slashes : Bytes → Bytes
unfolding trim drop_while
trim_slashes = trim (λ b. b == b'/')

-- The part before the first slash, and the parts behind it.
add_front : ℕ → List Bytes → List Bytes
add_front b [] = (b ∷ []) ∷ []
add_front b (part ∷ parts) = (b ∷ part) ∷ parts

-- strings.Split(text, "/")
unfoldable pub split_slashes : Bytes → List Bytes
unfolding add_front
split_slashes [] = [] ∷ []
split_slashes (b ∷ bs) =
    let parts = split_slashes bs in if b == b'/' then [] ∷ parts else add_front b parts

to_lower_byte : ℕ → ℕ
to_lower_byte b = if leb b'A' b && leb b b'Z' then b + 32 else b

-- strings.ToLower
unfoldable pub to_lower : Bytes → Bytes
unfolding to_lower_byte
to_lower [] = []
to_lower (b ∷ bs) = to_lower_byte b ∷ to_lower bs

-- strings.TrimPrefix
unfoldable pub trim_prefix : Bytes → Bytes → Bytes
trim_prefix text prefix = if starts_with prefix text then drop (length prefix) text else text

-- strings.TrimSuffix(text, "-")
unfoldable pub trim_dash : Bytes → Bytes
trim_dash [] = []
trim_dash (b ∷ []) = if b == b'-' then [] else b ∷ []
trim_dash (b ∷ c ∷ bs) = b ∷ trim_dash (c ∷ bs)
