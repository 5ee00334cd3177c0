-- ===== src/Fmp4/Boxes/RoundTrip.antt =====
-- The box format of internal/recorder/fmp4_builder.go: termination of the parser and round trips.
use record_storage.Common.{
  ℕ, zero, suc, ◌+◌, ◌-◌, ◌<◌, ◌≤◌, ◌≡◌, ◌≢◌, ◌↔◌, ◌∙◌, ap, refl, sym, true, [], ◌∷◌, ◌++◌, Bytes,
  append-nil, ◌%◌, length, take, drop, bytes_eq_iff, ok, err, arith, append_assoc, length-append,
  take-length-append, take_front, drop_front, length-drop,
}
use record_storage.Common.BigEndian.{put_be, get_be, length-put_be, get_be-put_be}
use record_storage.Common.Words.{u32_mod}
use record_storage.Sample.{CodecParameters}
use record_storage.Fmp4.Boxes.{Boxes, write_box, parse_loop, parse_boxes, params_equal, out_of_fuel}

parse_loop-ne_out :
    (fuel : ℕ) (rest : Bytes) (result : Boxes)
    → length rest < fuel
    → parse_loop fuel rest result ≢ err out_of_fuel
unfolding parse_loop
parse_loop-ne_out zero rest result h = absurd (omega arith)
parse_loop-ne_out (suc fuel) rest result h =
    let size = get_be (take 4 rest) in
    ground (
      arith,
      length-drop size rest,
      parse_loop-ne_out fuel (drop size rest)
          ((take 4 (drop 4 rest), take (size - 8) (drop 8 rest)) ∷ result),
    )

-- The parser answers on every input: its fuel does not run out.
pub parse_boxes_total : (bytes : Bytes) → parse_boxes bytes ≢ err out_of_fuel
unfolding parse_boxes
parse_boxes_total bytes = parse_loop-ne_out (suc (length bytes)) bytes [] (omega arith)

parse_loop-step :
    (fuel : ℕ) (rest : Bytes) (result : Boxes) (size : ℕ)
    → get_be (take 4 rest) ≡ size
    → 8 ≤ length rest
    → 8 ≤ size
    → size ≤ length rest
    → parse_loop (suc fuel) rest result
      ≡ parse_loop fuel
          (drop size rest)
          ((take 4 (drop 4 rest), take (size - 8) (drop 8 rest)) ∷ result)
unfolding parse_loop
parse_loop-step fuel rest result size e h k l = rw e (ground arith)

-- A box in front of some data.
abbrev pub box : Bytes → Bytes → Bytes → Bytes
box name payload rest = put_be 4 (8 + length payload) ++ (name ++ (payload ++ rest))

module _ (name payload rest : Bytes) (four : length name ≡ 4)
    (fits : 8 + length payload < u32_mod) where
  length-box : length (box name payload rest) ≡ 8 + length payload + length rest
  length-box = omega (
    arith,
    length-append (put_be 4 (8 + length payload)) (name ++ (payload ++ rest)),
    length-append name (payload ++ rest),
    length-append payload rest,
    length-put_be 4 (8 + length payload),
  )

  header : length (put_be 4 (8 + length payload) ++ name) ≡ 8
  header = omega (
    arith,
    length-append (put_be 4 (8 + length payload)) name,
    length-put_be 4 (8 + length payload),
  )

  after_header : drop 8 (box name payload rest) ≡ payload ++ rest
  after_header =
      ap (drop 8) (sym (append_assoc (put_be 4 (8 + length payload)) name (payload ++ rest)))
      ∙ drop_front 8 _ (payload ++ rest) header

  size-box : get_be (take 4 (box name payload rest)) ≡ 8 + length payload
  size-box =
      ap get_be (take_front 4 _ _ (length-put_be 4 (8 + length payload)))
      ∙ get_be-put_be 4 (8 + length payload) (omega arith)

  name-box : take 4 (drop 4 (box name payload rest)) ≡ name
  name-box =
      ap (take 4) (drop_front 4 _ _ (length-put_be 4 (8 + length payload)))
      ∙ take_front 4 name (payload ++ rest) four

  payload-box : take (length payload) (drop 8 (box name payload rest)) ≡ payload
  payload-box = ap (take (length payload)) after_header ∙ take-length-append payload rest

  rest-box : drop (8 + length payload) (box name payload rest) ≡ rest
  rest-box =
      ap (drop (8 + length payload)) (
        sym (append_assoc (put_be 4 (8 + length payload)) name (payload ++ rest))
        ∙ sym (append_assoc (put_be 4 (8 + length payload) ++ name) payload rest))
      ∙ drop_front (8 + length payload) _ rest
          (omega (arith, header, length-append (put_be 4 (8 + length payload) ++ name) payload))

  -- One round of the loop takes off one box.
  parse_loop-box :
      (fuel : ℕ) (result : Boxes)
      → parse_loop (suc fuel) (box name payload rest) result
        ≡ parse_loop fuel rest ((name, payload) ∷ result)
  parse_loop-box fuel result =
      parse_loop-step fuel (box name payload rest) result (8 + length payload) size-box
        (omega (arith, length-box)) (omega arith) (omega (arith, length-box))
      ∙ rw (rest-box, name-box)
          (ap (λ p. parse_loop fuel rest ((name, p) ∷ result))
            (ap (λ n. take n (drop 8 (box name payload rest))) (omega arith) ∙ payload-box))

-- The boxes one after another, as writeBox appends them.
abbrev pub write_all : Boxes → Bytes
write_all [] = []
write_all ((name, payload) ∷ boxes) = box name payload (write_all boxes)

-- The boxes in the order in which a parse finds them.
abbrev pub rev_onto : Boxes → Boxes → Boxes
rev_onto [] result = result
rev_onto (b ∷ boxes) result = rev_onto boxes (b ∷ result)

abbrev pub AreBoxes : Boxes → Type 0
AreBoxes [] = Unit {0}
AreBoxes ((name, payload) ∷ boxes) =
    ((length name ≡ 4) × (8 + length payload < u32_mod)) × AreBoxes boxes

write_box-box :
    (buf name payload : Bytes)
    → 8 + length payload < u32_mod
    → write_box buf name payload ≡ buf ++ box name payload []
unfolding write_box
write_box-box buf name payload h =
    let e : (8 + length payload) % u32_mod ≡ 8 + length payload = omega arith in
    rw (e, append-nil)
      (append_assoc (buf ++ put_be 4 (8 + length payload)) name payload
        ∙ append_assoc buf (put_be 4 (8 + length payload)) (name ++ payload))

-- The buffer after a writeBox for each box.
abbrev pub write_boxes : Bytes → Boxes → Bytes
write_boxes buf [] = buf
write_boxes buf ((name, payload) ∷ boxes) = write_boxes (write_box buf name payload) boxes

box-append : (name payload xs ys : Bytes) → box name payload xs ++ ys ≡ box name payload (xs ++ ys)
box-append name payload xs ys =
    append_assoc (put_be 4 (8 + length payload)) (name ++ (payload ++ xs)) ys
    ∙ ap (λ t. put_be 4 (8 + length payload) ++ t)
        (append_assoc name (payload ++ xs) ys ∙ ap (λ t. name ++ t) (append_assoc payload xs ys))

pub write_boxes-write_all :
    (buf : Bytes) (boxes : Boxes) → AreBoxes boxes → write_boxes buf boxes ≡ buf ++ write_all boxes
write_boxes-write_all buf [] are = sym (append-nil buf)
write_boxes-write_all buf ((n, p) ∷ boxes) are =
    write_boxes-write_all (write_box buf n p) boxes are.1
    ∙ ap (λ b. b ++ write_all boxes) (write_box-box buf n p are.0.1)
    ∙ append_assoc buf (box n p []) (write_all boxes)
    ∙ ap (λ t. buf ++ t) (box-append n p [] (write_all boxes))

parse_loop-write_all :
    (boxes result : Boxes) (fuel : ℕ)
    → AreBoxes boxes
    → length (write_all boxes) < fuel
    → parse_loop fuel (write_all boxes) result ≡ ok (rev_onto boxes result)
parse_loop-write_all [] result zero are h = absurd (omega arith)
parse_loop-write_all [] result (suc fuel) are h = unfold parse_loop in refl
parse_loop-write_all ((n, p) ∷ boxes) result zero are h = absurd (omega arith)
parse_loop-write_all ((n, p) ∷ boxes) result (suc fuel) are h =
    parse_loop-box n p (write_all boxes) are.0.0 are.0.1 fuel result
    ∙ parse_loop-write_all boxes ((n, p) ∷ result) fuel are.1
        (omega (arith, length-box n p (write_all boxes) are.0.0 are.0.1))

-- Boxes with 4-byte names and sizes below 2 ^ 32, written one after another into an empty buffer,
-- are parsed back whole: each with its name and payload, the last one written found first.
pub parse_boxes-write_boxes :
    (boxes : Boxes) → AreBoxes boxes → parse_boxes (write_boxes [] boxes) ≡ ok (rev_onto boxes [])
unfolding parse_boxes
parse_boxes-write_boxes boxes are =
    rw (write_boxes-write_all [] boxes are)
      (parse_loop-write_all boxes [] (suc (length (write_all boxes))) are (omega arith))

write_all-snoc :
    (bs : Boxes) (n p : Bytes) → write_all (bs ++ ((n, p) ∷ [])) ≡ write_all bs ++ box n p []
write_all-snoc [] n p = refl
write_all-snoc ((m, q) ∷ bs) n p =
    ap (box m q) (write_all-snoc bs n p) ∙ sym (box-append m q (write_all bs) (box n p []))

AreBoxes-snoc :
    (bs : Boxes) (n p : Bytes)
    → AreBoxes bs
    → length n ≡ 4
    → 8 + length p < u32_mod
    → AreBoxes (bs ++ ((n, p) ∷ []))
AreBoxes-snoc [] n p are four fits = ((four, fits), tt)
AreBoxes-snoc (b ∷ bs) n p are four fits = (are.0, AreBoxes-snoc bs n p are.1 four fits)

rev_onto-snoc :
    (bs : Boxes) (x : Bytes × Bytes) (r : Boxes) → rev_onto (bs ++ (x ∷ [])) r ≡ x ∷ rev_onto bs r
rev_onto-snoc [] x r = refl
rev_onto-snoc (b ∷ bs) x r = rev_onto-snoc bs x (b ∷ r)

-- A box appended to a sequence of boxes is the one found first.
pub parse_boxes-write_box :
    (bs : Boxes) (n p : Bytes)
    → AreBoxes bs
    → length n ≡ 4
    → 8 + length p < u32_mod
    → parse_boxes (write_box (write_all bs) n p) ≡ ok ((n, p) ∷ rev_onto bs [])
unfolding parse_boxes
parse_boxes-write_box bs n p are four fits =
    rw
      (write_box-box (write_all bs) n p fits, ← write_all-snoc bs n p, ← rev_onto-snoc bs (n, p) [])
      (parse_loop-write_all (bs ++ ((n, p) ∷ [])) [] _ (AreBoxes-snoc bs n p are four fits)
        (omega arith))

-- ParamsEqual answers true exactly on equal parameters; nil and an empty slice count as equal.
pub params_equal_iff :
    (left right : CodecParameters) → (params_equal left right ≡ true) ↔ (left ≡ right)
unfolding params_equal
params_equal_iff left right = ground (
  arith,
  bytes_eq_iff left.sps right.sps,
  bytes_eq_iff left.pps right.pps,
  bytes_eq_iff left.vps right.vps,
  bytes_eq_iff left.config right.config,
)
