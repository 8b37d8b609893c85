-- ===== src/Mig/Header/Flags.antt =====
-- The byte of flags and stage.
use capybara_artifact.Base.{ℕ, ◌/◌, ◌==◌, ◌≡◌, Bool, not, bit_and, ok, arith}
use capybara_artifact.Mig.Header.{MigrationStage, stage_of_u8, serialize_flags_and_stage}

abbrev pub ReadBack : Bool → Bool → MigrationStage → ℕ → Type 0
ReadBack load next stage flags =
    (not (bit_and flags 1 == 0) ≡ load)
    × (not (bit_and flags 2 == 0) ≡ next)
    × (stage_of_u8 (bit_and flags 0xF0 / 16) ≡ ok stage)

-- The three parts of the byte do not disturb one another: each is read back as it was written.
pub flags_read :
    (load next : Bool) (stage : MigrationStage)
    → ReadBack load next stage (serialize_flags_and_stage load next stage)
unfolding serialize_flags_and_stage stage_of_u8
flags_read load next stage = ground arith
