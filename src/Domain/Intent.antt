-- ===== src/Domain/Intent.antt =====
-- RecordIntent of internal/domain/record_intent.go. A `Time` is the nanoseconds since an instant
-- before every time that the program meets.
use docker_coredns_sync.Prelude.{
  Bool, Text, bool_beq, ltb, nat_eq, text_beq, text_eq, ℕ, ◌&&◌, ◌++◌, ◌==◌, ◌∷◌,
}
use docker_coredns_sync.GoText.{print_bool}
use docker_coredns_sync.GoText.Decimal.{print, int_eq}
use docker_coredns_sync.Domain.Record
use docker_coredns_sync.Domain.Record.{Record}

abbrev pub Time : Type 0
Time = ℕ

-- t.Before(u)
abbrev pub before : Time → Time → Bool
before t u = ltb t u

pub record RecordIntent : Type 0 where
  pub container_id : Text
  pub container_name : Text
  pub created : Time
  pub hostname : Text
  pub force : Bool
  -- a uint32; zero means that no TTL is set
  pub ttl : ℕ
  pub rec : Record

-- Equal: the creation time does not count
unfoldable pub equal : RecordIntent → RecordIntent → Bool
unfolding text_beq Record.equal
equal ri other =
    ri.container_id == other.container_id
    && ri.container_name == other.container_name
    && ri.hostname == other.hostname
    && bool_beq ri.force other.force
    && ri.ttl == other.ttl
    && Record.equal ri.rec other.rec

-- Key
unfoldable pub key : RecordIntent → Text
unfolding print_bool print Record.key
key ri =
    ri.container_id
    ++ (b'|'
        ∷ (ri.container_name
            ++ (b'|'
                ∷ (ri.hostname
                    ++ (b'|'
                        ∷ (print_bool ri.force
                            ++ (b'|' ∷ (print ri.ttl ++ (b'|' ∷ Record.key ri.rec)))))))))
