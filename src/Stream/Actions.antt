-- ===== src/Stream/Actions.antt =====
-- The actions of a recorder: a method may fail, and keeps what it changed before it failed.
use record_storage.Common.{ℕ, Bool, Option, List, [], ◌∷◌, ◌++◌, Bytes, Result, ok, err}
use record_storage.Sample.{Codec, CodecParameters, RecorderState}
use record_storage.Gop.{Assembler}
use record_storage.Fmp4.Builder.{Builder, BuilderError}
use record_storage.Writer.{Writer, SubmitError}

pub data EventKind : Type 0 where
  start_event stop_event stop_error_event : EventKind
  recording_event codec_change_event : Codec → EventKind

pub record RecordedEvent : Type 0 where
  pub camera_id : Bytes
  pub kind : EventKind

pub record Stream : Type 0 where
  pub camera_id : Bytes
  pub assembler : Assembler
  pub builder : Option Builder
  pub has_mem_ctrl : Bool
  pub state : RecorderState
  pub init_key : Bytes
  pub init_path : Bytes
  pub init_data : Bytes
  pub params : CodecParameters
  pub codec : Codec
  pub sequence : ℕ
  pub writer : Writer
  pub events : List RecordedEvent

pub data RecorderError : Type 0 where
  no_gop_available builder_not_initialized : RecorderError
  build_failed : BuilderError → RecorderError
  submit_failed : SubmitError → RecorderError

abbrev pub Act : Type 0 → Type 0
Act A = Stream → Result RecorderError A × Stream

abbrev pub continue : {A B : Type 0} → Result RecorderError A → (A → Act B) → Act B
continue (ok a) f s = f a s
continue (err e) f s = (err e, s)

infixl 5 ◌>>=◌ ◌>>◌
abbrev pub ◌>>=◌ : {A B : Type 0} → Act A → (A → Act B) → Act B
◌>>=◌ m f s = let (r, s') = m s in continue r f s'

abbrev pub ◌>>◌ : {A B : Type 0} → Act A → Act B → Act B
m >> n = m >>= λ _. n

abbrev pub pure : {A : Type 0} → A → Act A
pure a s = (ok a, s)

abbrev pub fail : {A : Type 0} → RecorderError → Act A
fail e s = (err e, s)

abbrev pub gets : {A : Type 0} → (Stream → A) → Act A
gets f s = (ok (f s), s)

abbrev pub modify : (Stream → Stream) → Act (Unit {0})
modify f s = (ok tt, f s)

-- `err := m()`: the error as a value.
abbrev pub attempt : {A : Type 0} → Act A → Act (Result RecorderError A)
attempt m s = let (r, s') = m s in (ok r, s')

-- WriteEvent, whose error is only logged
unfoldable pub write_event : EventKind → Act (Unit {0})
write_event kind =
    modify (λ s. record s {
      events = s.events ++ (record { camera_id = s.camera_id; kind = kind } ∷ []);
    })

unfoldable pub set_state : RecorderState → Act (Unit {0})
set_state state = modify (λ s. record s { state = state })
