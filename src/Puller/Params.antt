-- ===== src/Puller/Params.antt =====
-- What the H264 handler of internal/puller/rtsp_puller.go delivers.
use record_storage.Common.{
  ℕ, ◌≡◌, ◌≢◌, ◌<◌, ◌==◌, ==_iff, ◌↔◌, ◌⊎◌, inl, inr, refl, subst, ap, Bool, true, false, none,
  some, List, All, [], ◌∷◌, Bytes, length, if◌then◌else◌, arith, Bool-cases,
}
use record_storage.Clock.{Time}
use record_storage.Sample.{CodecParameters, h264, FrameType, frame_i, frame_p}
use record_storage.Index.Cursor.{In}
use record_storage.Puller.Packets.{
  H264Types, Handled, panicked, delivered, h264_type, is_h264_key, take_h264_params, handle_h264,
  timestamp_from_pts, deliver, frame_type_from_key,
}

-- The last unit of a type, or else what was there before.
unfoldable pub last_of : ℕ → List Bytes → Bytes → Bytes
last_of n [] old = old
last_of n ([] ∷ units) old = last_of n units old
last_of n ((b ∷ bs) ∷ units) old = last_of n units (if h264_type b == n then b ∷ bs else old)

abbrev pub HasData : Bytes → Type 0
HasData unit = 0 < length unit

take_h264_params-last_of :
    (types : H264Types) (units : List Bytes) (params : CodecParameters)
    → types.sps ≢ types.pps
    → All HasData units
    → take_h264_params types units params
      ≡ some (record params {
        sps = last_of types.sps units params.sps;
        pps = last_of types.pps units params.pps;
      })
unfolding take_h264_params last_of
take_h264_params-last_of types [] params differ h = refl
take_h264_params-last_of types ([] ∷ units) params differ h = absurd (omega (arith, h.0))
take_h264_params-last_of types ((b ∷ bs) ∷ units) params differ h =
    elim (Bool-cases (h264_type b == types.sps)) [
      | inl is_sps ↦
          let not_pps : (h264_type b == types.pps) ≡ false = ground arith in
          rw (is_sps, not_pps)
            (take_h264_params-last_of types units (record params { sps = b ∷ bs }) differ h.1)
      | inr no_sps ↦ elim (Bool-cases (h264_type b == types.pps)) [
        | inl is_pps ↦
            rw (no_sps, is_pps)
              (take_h264_params-last_of types units (record params { pps = b ∷ bs }) differ h.1)
        | inr no_pps ↦ rw (no_sps, no_pps) (take_h264_params-last_of types units params differ h.1)
      ]
    ]

-- A unit of type IDR, SPS or PPS.
abbrev pub IsKeyUnit : H264Types → Bytes → Type 0
IsKeyUnit types [] = ⊥
IsKeyUnit types (b ∷ bs) =
    (h264_type b ≡ types.idr) ⊎ (h264_type b ≡ types.sps) ⊎ (h264_type b ≡ types.pps)

is_h264_key→unit :
    (types : H264Types) (units : List Bytes)
    → is_h264_key types units ≡ true
    → (u : Bytes) × In u units × IsKeyUnit types u
unfolding is_h264_key
is_h264_key→unit types [] h = absurd (ground (arith, h))
is_h264_key→unit types ([] ∷ units) h =
    let (u, i, k) = is_h264_key→unit types units h in (u, inr i, k)
is_h264_key→unit types ((b ∷ bs) ∷ units) h = elim (Bool-cases (h264_type b == types.idr)) [
  | inl t ↦ (b ∷ bs, inl refl, inl ((==_iff _ _).0 t))
  | inr t ↦ elim (Bool-cases (h264_type b == types.sps)) [
    | inl t2 ↦ (b ∷ bs, inl refl, inr (inl ((==_iff _ _).0 t2)))
    | inr t2 ↦ elim (Bool-cases (h264_type b == types.pps)) [
      | inl t3 ↦ (b ∷ bs, inl refl, inr (inr ((==_iff _ _).0 t3)))
      | inr t3 ↦ let (u, i, k) = is_h264_key→unit types units (rw (t, t2, t3) at h) in (u, inr i, k)
    ]
  ]
]

unit→is_h264_key :
    (types : H264Types) (units : List Bytes) (u : Bytes)
    → In u units
    → IsKeyUnit types u
    → is_h264_key types units ≡ true
unfolding is_h264_key
unit→is_h264_key types [] u i k = elim i [ ]
unit→is_h264_key types (x ∷ units) u (inl e) k = first x (subst (IsKeyUnit types) e k)
  where
    first : (x : Bytes) → IsKeyUnit types x → is_h264_key types (x ∷ units) ≡ true
    first [] k' = elim k' [ ]
    first (b ∷ bs) (inl k') = ground (arith, k')
    first (b ∷ bs) (inr (inl k')) = ground (arith, k')
    first (b ∷ bs) (inr (inr k')) = ground (arith, k')
unit→is_h264_key types ([] ∷ units) u (inr i) k = unit→is_h264_key types units u i k
unit→is_h264_key types ((b ∷ bs) ∷ units) u (inr i) k =
    ground (arith, unit→is_h264_key types units u i k)

take_h264_params-none :
    (types : H264Types) (units : List Bytes) (params : CodecParameters)
    → In [] units
    → take_h264_params types units params ≡ none
unfolding take_h264_params
take_h264_params-none types [] params i = elim i [ ]
take_h264_params-none types ([] ∷ units) params i = refl
take_h264_params-none types ((b ∷ bs) ∷ units) params (inl e) = absurd (ground (arith, ap length e))
take_h264_params-none types ((b ∷ bs) ∷ units) params (inr i) =
    take_h264_params-none types units _ i

-- Of a packet that completes an access unit without empty units, handleH264 delivers one sample: its
-- units are the access unit, its parameter sets are the last ones among the units, or else the
-- format's, and it is a key sample, of frame type I, exactly when some unit is of type IDR, SPS or
-- PPS.
pub handle_h264-delivers :
    (now base_time : Time) (types : H264Types) (pts : ℕ) (units : List Bytes)
    (params : CodecParameters)
    → types.sps ≢ types.pps
    → All HasData units
    → (is_key : Bool) × (handle_h264 now base_time types (some pts) (some units) params
        ≡ delivered (record {
          codec = h264;
          timestamp = timestamp_from_pts now base_time pts;
          units = units;
          is_key = is_key;
          frame_type = if is_key then frame_i else frame_p;
          params = record params {
            sps = last_of types.sps units params.sps;
            pps = last_of types.pps units params.pps;
          };
        }))
      × ((is_key ≡ true) ↔ ((u : Bytes) × In u units × IsKeyUnit types u))
unfolding handle_h264 deliver
handle_h264-delivers now base_time types pts units params differ h = (
  is_h264_key types units,
  rw (take_h264_params-last_of types units params differ h)
      (ap with_frame (frames (is_h264_key types units))),
  (is_h264_key→unit types units, λ w. unit→is_h264_key types units w.0 w.1 w.2),
)
  where
    frames : (b : Bool) → frame_type_from_key b ≡ (if b then frame_i else frame_p)
    frames true = unfold frame_type_from_key in refl
    frames false = unfold frame_type_from_key in refl

    with_frame : FrameType → Handled
    with_frame frame_type = delivered (record {
      codec = h264;
      timestamp = timestamp_from_pts now base_time pts;
      units = units;
      is_key = is_h264_key types units;
      frame_type = frame_type;
      params = record params {
        sps = last_of types.sps units params.sps;
        pps = last_of types.pps units params.pps;
      };
    })

-- An access unit that holds an empty unit makes handleH264 panic.
pub handle_h264-panics :
    (now base_time : Time) (types : H264Types) (pts : ℕ) (units : List Bytes)
    (params : CodecParameters)
    → In [] units
    → handle_h264 now base_time types (some pts) (some units) params ≡ panicked
unfolding handle_h264 deliver
handle_h264-panics now base_time types pts units params i =
    rw (take_h264_params-none types units params i) refl
