-- ===== src/Mig/Peer/Requests.antt =====
-- The first message of a migration, PREPARE_MIGRATION.
use capybara_artifact.Base.{◌≡◌, refl, true, false, some, none, [], ◌∷◌, ok}
use capybara_artifact.Net.Map.{addr_key, lookup, lookup-insert}
use capybara_artifact.State.{Buffer}
use capybara_artifact.Mig.Header.{
  TcpMigHeader, Ipv4Header, prepare_migration, prepare_migration_ack, swap_src_dst_port, parse,
}
use capybara_artifact.Mig.Active.{
  new, ActiveMigration, ok_status, returned_by_switch, segment_to_send,
}
use capybara_artifact.Mig.Peer.{
  TcpMigPeer, new_active, put_active, drop_active, receive, on_parsed, on_message, dispatch,
  on_processed, on_status, prepare,
}
use capybara_artifact.Mig.Active.Empty.{process-prepare}

module _ (p : TcpMigPeer) (ip : Ipv4Header) (buf rest : Buffer) (hdr : TcpMigHeader)
    (parsed : parse ip buf ≡ some (ok (hdr, rest))) (stage : hdr.stage ≡ prepare_migration) where
  -- The migration on the target's side once it has answered.
  abbrev pub prepared : ActiveMigration
  prepared = record (new_active p hdr.origin.port hdr.origin hdr.client none) {
    last_sent_stage = prepare_migration_ack;
  }

  receive-on_message : receive p ip buf ≡ on_message p hdr rest prepare_migration
  unfolding receive on_parsed
  receive-on_message = rw (parsed, stage)

  -- A request about a connection that is not migrating is accepted: the migration is in the table
  -- in the stage PREPARE_MIGRATION_ACK, and the one segment that is sent, to the other server, is
  -- the acknowledgement, with the ports swapped and the load flag set.
  pub receive-prepare :
      lookup hdr.client p.active_migrations ≡ none
      → (p' : TcpMigPeer) × (lookup hdr.client p'.active_migrations ≡ some prepared)
        × (receive p ip buf
            ≡ some (
              ok ok_status,
              (
                p',
                segment_to_send prepared
                      (record hdr {
                        stage = prepare_migration_ack;
                        flag_load = true;
                        flag_next_fragment = false;
                        fragment_offset = 0;
                        source_udp_port = hdr.dest_udp_port;
                        dest_udp_port = hdr.source_udp_port;
                      })
                      []
                    ∷ [],
              ),
            ))
  unfolding on_message dispatch on_processed on_status prepare new swap_src_dst_port
  receive-prepare e =
      let a = new_active p hdr.origin.port hdr.origin hdr.client none in
      (
        put_active hdr.client prepared (put_active hdr.client a p),
        lookup-insert hdr.client prepared ((put_active hdr.client a p).active_migrations),
        rw (
          receive-on_message,
          e,
          lookup-insert hdr.client a p.active_migrations,
          process-prepare a hdr rest refl stage,
        ),
      )

  -- A request about a connection that is migrating already.
  pub receive-returned :
      (old : ActiveMigration)
      → lookup hdr.client p.active_migrations ≡ some old
      → receive p ip buf
        ≡ some (
          ok (returned_by_switch hdr.origin hdr.client),
          (
            drop_active hdr.client
                (put_active hdr.client (new_active p hdr.origin.port hdr.origin hdr.client none) p),
            [],
          ),
        )
  unfolding on_message prepare
  receive-returned old e = rw (receive-on_message, e)
