-- ===== src/Mig/Active/Empty.antt =====
-- The messages without a payload, each one segment.
use capybara_artifact.Base.{◌≡◌, refl, true, false, some, [], ◌∷◌, ok}
use capybara_artifact.State.{Buffer}
use capybara_artifact.Mig.Header.{
  TcpMigHeader, none_stage, prepare_migration, prepare_migration_ack,
}
use capybara_artifact.Mig.Segment.{fragments, collect, next}
use capybara_artifact.Mig.Active.{
  ActiveMigration, ok_status, segment_to_send, send, send_stage, next_header, process_packet,
  on_stage, on_none,
}

-- The header of an unfragmented message.
abbrev pub unfragmented : TcpMigHeader → TcpMigHeader
unfragmented hdr = record hdr { flag_next_fragment = false; fragment_offset = 0 }

pub send-empty :
    (a : ActiveMigration) (hdr : TcpMigHeader)
    → send a hdr [] ≡ some (segment_to_send a (unfragmented hdr) [] ∷ [])
unfolding send collect fragments next
send-empty a hdr = refl

-- The answer of the target to a request, from its first stage.
pub process-prepare :
    (a : ActiveMigration) (hdr : TcpMigHeader) (buf : Buffer)
    → a.last_sent_stage ≡ none_stage
    → hdr.stage ≡ prepare_migration
    → process_packet a hdr buf
      ≡ some (
        ok ok_status,
        (
          record a { last_sent_stage = prepare_migration_ack },
          segment_to_send a
                (unfragmented (record (next_header hdr prepare_migration_ack) { flag_load = true }))
                []
              ∷ [],
        ),
      )
unfolding process_packet on_stage on_none send_stage
process-prepare a hdr buf s t =
    rw (s, t, send-empty a (record (next_header hdr prepare_migration_ack) { flag_load = true }))
