-- ===== src/Migrate/Actions.antt =====
-- What the actions of the orchestrator's steps keep, for any statement about the session that the calls
-- beyond the model keep.
use nodejs_movy_data.Prelude.{ℕ, List, All, Dict}
use nodejs_movy_data.Events.Types.{TableMigrationPlan}
use nodejs_movy_data.Migrate.Schema.{DatabaseSchema}
use nodejs_movy_data.Migrate.Effects.{Event, Call, Session, called, emitted}
use nodejs_movy_data.Migrate.Orchestrator.{
  validate_connections, create_database, compare_schemas, copy_data,
}
use nodejs_movy_data.Migrate.Ports.{Config, Ports}
use nodejs_movy_data.Migrate.Triples.{
  Keeps, and_then-kept, Post, and_then-Post, Post-weaken, Post-of_kept,
}
use nodejs_movy_data.Migrate.Kept.{Copying, IsReport, connect_or_explain-kept, migrate_data-Post}

module _ {W P : Type 0} (cfg : Config) (ports : Ports W P) (I : Session W P → Type 0) where
  -- A call keeps the statement.
  abbrev pub Calls : {A : Type 0} → Call W A → Type 0
  Calls f = (s : Session W P) → I s → I (called s (f s.outside)).1

  abbrev pub Waits : Type 0
  Waits = (d : ℕ) (s : Session W P) → I s → I (record s { outside = ports.wait d s.outside })

  pub validate_connections-kept :
      Waits
      → Calls ports.connect_source
      → Calls ports.connect_admin
      → Keeps I (validate_connections cfg ports)
  unfolding validate_connections
  validate_connections-kept waits source admin s h =
      and_then-kept I _ _
        (λ a. connect_or_explain-kept cfg ports I ports.connect_admin admin waits "Admin")
        (connect_or_explain-kept cfg ports I ports.connect_source source waits "Source" s h)

  pub create_database-kept :
      Waits
      → Calls (ports.ensure_database cfg.dest_database)
      → Calls ports.connect_dest
      → Keeps I (create_database cfg ports)
  unfolding create_database
  create_database-kept waits ensure dest s h =
      and_then-kept I _ _
        (λ b u k.
          and_then-kept I _ _ (λ a v j. j)
            (connect_or_explain-kept cfg ports I ports.connect_dest dest waits "Destination" u k))
        (ensure s h)

  pub compare_schemas-kept :
      Calls ports.inspect_source → Calls ports.inspect_dest → Keeps I (compare_schemas cfg ports)
  unfolding compare_schemas
  compare_schemas-kept source dest s h =
      and_then-kept I _ _
        (λ a u k. and_then-kept I _ _ (λ b v j. and_then-kept I _ _ (λ c x l. l) j) (dest u k))
        (source s h)

  -- The copy keeps it if it returns; if it throws, `J` follows.
  pub copy_data-Post :
      (J : Session W P → Type 0) (schema : DatabaseSchema)
      → ((e : Event P) (s : Session W P) → Copying e → I s → I (emitted cfg.watched e s))
      → ((s : Session W P) → I s → J s)
      → ((l : List (List (Event P))) (s : Session W P)
          → All (All IsReport) l
          → I s
          → J (record s { late = l }))
      → Calls ports.row_estimates
      → ((p : TableMigrationPlan) (n : ℕ) (est : Dict ℕ) (s : Session W P)
          → I s
          → I (record s { outside = (ports.migrate p n est s.outside).1.1 }))
      → (s : Session W P) → I s
      → Post (λ a. I) (λ e. J) (copy_data cfg ports schema s)
  unfolding copy_data
  copy_data-Post J schema emits weaken strays estimates copies s h =
      let counted = called s (ports.row_estimates s.outside) in
      and_then-Post (λ a. I) (λ a. I) (λ e. J) _ counted
        (Post-weaken counted (Post-of_kept I counted (estimates s h)) (λ a u k. k)
          (λ e u k. weaken u k))
        (λ est.
          migrate_data-Post cfg.watched ports.percent I J emits weaken strays ports.migrate copies
            ports.before_text cfg.source_type cfg.dest_type schema.tables est)
