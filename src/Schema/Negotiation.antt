-- ===== src/Schema/Negotiation.antt =====
-- skillsync/schema.go: the negotiated version.
use roost_skill.Common.{
  ℕ, ◌≤◌, true, false, if◌then◌else◌, ◌&&◌, ◌||◌, ◌==◌, ltb, ◌≡◌, ◌≢◌, arith, if_cases,
}
use roost_skill.Common.Results.{Result, ok, fail}
use roost_skill.Applier.{SchemaRange, contains}
use roost_skill.Schema.{SchemaError, negotiate_schema}

-- A version that both sides serve, or that none does.
abbrev pub Negotiated : SchemaRange → SchemaRange → Result SchemaError ℕ → Type 0
Negotiated server client (ok v) =
    (contains server v ≡ true)
    × (contains client v ≡ true)
    × ((w : ℕ) → contains server w ≡ true → contains client w ≡ true → w ≤ v)
Negotiated server client (fail e) = (w : ℕ) → (contains server w && contains client w) ≡ false

-- For ranges with a lower end the negotiation gives the highest version that both ranges contain,
-- and fails just where they have none in common.
pub negotiate_schema-Negotiated :
    (server client : SchemaRange)
    → server.min ≢ 0
    → client.min ≢ 0
    → Negotiated server client (negotiate_schema server client)
unfolding negotiate_schema contains
negotiate_schema-Negotiated server client h k =
    if_cases (Negotiated server client)
      ((if ltb server.min client.min then client.min else server.min) == 0
        || ltb (if ltb client.max server.max then client.max else server.max)
            (if ltb server.min client.min then client.min else server.min))
      (λ e w. ground arith) (λ e. (ground arith, ground arith, λ w u v. ground arith))
