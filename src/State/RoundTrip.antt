-- ===== src/State/RoundTrip.antt =====
-- `TcpState::serialize` and `TcpState::deserialize` together: what one server sends of a
-- connection is what the other restores.
use capybara_artifact.Base.{
  ℕ, ◌+◌, ◌≡◌, refl, sym, ap, ◌∙◌, >>=_assoc, Option, some, List, [], ◌∷◌, ◌++◌, length,
  length-append, length-replicate, replicate, ◌>>=◌, ◌==◌, if◌then◌else◌, append-nil, Bool-cases,
  inl, inr, arith,
}
use capybara_artifact.State.{
  ControlBlockState, TcpState, MigratedApplicationState, none_state, registered, migrated_in,
}
use capybara_artifact.State.Writer.{Out, ◌then◌, put, put_fits}
use capybara_artifact.State.Serialize.{serialize_control_block}
use capybara_artifact.State.Size.{app_size, serialized_size, serialize_app, serialize}
use capybara_artifact.State.Deserialize.{restore, deserialize}
use capybara_artifact.State.Codec.{then-put}
use capybara_artifact.State.Encode.{IsControlBlockState, received}
use capybara_artifact.State.Encode.Block.{encode, control_block-writes, control_block-reads}
use capybara_artifact.State.Encode.Size.{length-encode}

-- The application writes as many bytes as it says.
abbrev pub IsApp : MigratedApplicationState → Type 0
IsApp (registered a) = length a.bytes ≡ a.serialized_size
IsApp none_state = Unit {0}
IsApp (migrated_in b) = Unit {0}

pub record IsTcpState (s : TcpState) : Type 0 where
  pub cb : IsControlBlockState s.cb
  pub app : IsApp s.app_state

-- The byte after the control block, and the application's bytes.
abbrev pub encode_app : MigratedApplicationState → List ℕ
encode_app (registered a) = if a.serialized_size == 0 then 0 ∷ [] else 1 ∷ a.bytes
encode_app none_state = 0 ∷ []
encode_app (migrated_in b) = 0 ∷ []

-- The application's state arrives as bytes, and an empty one not at all.
abbrev pub received_app : MigratedApplicationState → MigratedApplicationState
received_app (registered a) = if a.serialized_size == 0 then none_state else migrated_in a.bytes
received_app none_state = none_state
received_app (migrated_in b) = none_state

abbrev pub received_state : TcpState → TcpState
received_state s = record { cb = received s.cb; app_state = received_app s.app_state }

app-writes : (a : MigratedApplicationState) (o : Out) → serialize_app a o ≡ put (encode_app a) o
unfolding serialize_app
app-writes none_state o = refl
app-writes (migrated_in b) o = refl
app-writes (registered a) o = elim (Bool-cases (a.serialized_size == 0)) [
  | inl e ↦ rw (e, serialize_app)
  | inr e ↦
      rw (e, serialize_app)
        (then-put (put (1 ∷ [])) (put a.bytes) (1 ∷ []) a.bytes (λ o. refl) (λ o. refl) o)
]

length-encode_app :
    (a : MigratedApplicationState) → IsApp a → length (encode_app a) ≡ 1 + app_size a
length-encode_app none_state h = refl
length-encode_app (migrated_in b) h = refl
length-encode_app (registered a) h = elim (Bool-cases (a.serialized_size == 0)) [
  | inl e ↦ rw e (ground arith)
  | inr e ↦ rw e (omega arith)
]

length-encode_state :
    (s : TcpState)
    → IsTcpState s
    → length (encode s.cb ++ encode_app s.app_state) ≡ serialized_size s
unfolding serialized_size
length-encode_state s v = omega (
  arith,
  length-append (encode s.cb) (encode_app s.app_state),
  length-encode s.cb,
  length-encode_app s.app_state v.app,
)

abbrev slice : TcpState → Out
slice s = record { done = []; left = replicate (serialized_size s) 0 }

writes_all :
    (s : TcpState)
    → IsTcpState s
    → (serialize_control_block s.cb then serialize_app s.app_state) (slice s)
      ≡ some (record { done = encode s.cb ++ encode_app s.app_state; left = [] })
writes_all s v =
    then-put (serialize_control_block s.cb) (serialize_app s.app_state) (encode s.cb)
      (encode_app s.app_state) (control_block-writes s.cb v.cb) (app-writes s.app_state) (slice s)
    ∙ put_fits (encode s.cb ++ encode_app s.app_state) (replicate (serialized_size s) 0)
        (length-replicate (serialized_size s) 0 ∙ sym (length-encode_state s v))

-- For a state whose numbers have the ranges of their Rust types, whose queues have less than
-- 2 ^ 32 entries of less than 2 ^ 32 bytes, and whose application writes as many bytes as it
-- reports, `serialize` does not panic, and fills a buffer of exactly `serialized_size` bytes: the
-- control block's bytes, then the application's.
pub serialize_fills :
    (s : TcpState)
    → IsTcpState s
    → (serialize s ≡ some (encode s.cb ++ encode_app s.app_state))
      × (length (encode s.cb ++ encode_app s.app_state) ≡ serialized_size s)
unfolding serialize
serialize_fills s v = (
  sym (
        >>=_assoc (serialize_control_block s.cb (slice s)) (serialize_app s.app_state)
          (λ o. some (o.done ++ o.left)))
      ∙ ap (λ (m : Option Out). m >>= λ o. some (o.done ++ o.left)) (writes_all s v)
      ∙ ap some (append-nil (encode s.cb ++ encode_app s.app_state)),
  length-encode_state s v,
)

restore-encode_app :
    (cb : ControlBlockState) (a : MigratedApplicationState)
    → restore cb (encode_app a) ≡ some (record { cb = cb; app_state = received_app a })
unfolding restore
restore-encode_app cb none_state = refl
restore-encode_app cb (migrated_in b) = refl
restore-encode_app cb (registered a) = elim (Bool-cases (a.serialized_size == 0)) [
  | inl e ↦ rw (e, restore)
  | inr e ↦ rw (e, restore)
]

deserialize-encode :
    (s : TcpState)
    → IsTcpState s
    → deserialize (encode s.cb ++ encode_app s.app_state) ≡ some (received_state s)
unfolding deserialize
deserialize-encode s v =
    rw (control_block-reads s.cb v.cb (encode_app s.app_state))
      (restore-encode_app (received s.cb) s.app_state)

-- Migrating a connection's state loses nothing but the transmission times of unacknowledged
-- segments: on the same states, `deserialize` gives back what `serialize` was given, with the
-- application's state as the bytes that it wrote (and none, if it reported an empty one).
pub deserialize-serialize :
    (s : TcpState) → IsTcpState s → (serialize s >>= deserialize) ≡ some (received_state s)
deserialize-serialize s v = rw ((serialize_fills s v).0) (deserialize-encode s v)
