-- ===== src/Mcp/MemoryTools/Confined.antt =====
-- What a role can change through the memory tools: the checks of the handler and the operations behind
-- them, together.
use saivage.Base.{
  String, ◌≡◌, refl, sym, subst, ◌∙◌, ◌⊎◌, true, false, not, Option, none, some, [], ◌∷◌, ◌++◌,
  arith, inl, inr, Bool-cases, Option-cases, filter, any, ◌==◌, eq_iff,
}
use saivage.Knowledge.Permissions.{Role, create, Kind, memory, ScopeContext}
use saivage.Knowledge.Permissions.Access.{MayWrite}
use saivage.Knowledge.Records.{RecordRow, Sidecar, same_kind}
use saivage.Knowledge.Sidecar.{after, update_where}
use saivage.Knowledge.Sidecar.Rows.{
  find_row, KeepsId, find_row-update_where, find_row-append, find_row-delete,
  find_row-clear_pending, find_row-absent,
}
use saivage.Knowledge.Lifecycle.{Env, reingest}
use saivage.Knowledge.Calls.Audit.{content}
use saivage.Mcp.MemoryTools.{ToolContext, topic_of, topic_allowed}

module _ (role : Role) (ctx : ToolContext) where
  abbrev pub scope_context : ScopeContext
  scope_context = record { stage_id = ctx.stage_id }

  -- A memory that the role may write at all: of the scope, and for the librarian of the topics, that it
  -- is confined to.
  abbrev pub Within : RecordRow → Type 0
  Within r =
      (same_kind r.kind memory ≡ true)
      × MayWrite role create memory r.scope r.scope_ref scope_context
      × (topic_allowed role (topic_of r.json.details) ≡ true)

  abbrev pub WithinIfAny : Option RecordRow → Type 0
  WithinIfAny none = Unit
  WithinIfAny (some r) = Within r

  -- A record that has changed in more than its mark for the index was one that the role may write, if
  -- there was one, and is one, if there is one.
  abbrev pub Confines : Sidecar → Sidecar → Type 0
  Confines s t =
      (id : String)
      → (content (find_row id t.rows) ≡ content (find_row id s.rows))
        ⊎ (WithinIfAny (content (find_row id s.rows)) × WithinIfAny (content (find_row id t.rows)))

  pub Confines-same : (s : Sidecar) → Confines s s
  Confines-same s j = inl refl

  pub Confines-trans : (s m t : Sidecar) → Confines s m → Confines m t → Confines s t
  Confines-trans s m t f g j = elim (f j) [
    | inl e ↦ elim (g j) [ inl e' ↦ inl (e' ∙ e) | inr (a, b) ↦ inr (subst WithinIfAny e a, b) ]
    | inr (a, b) ↦ elim (g j) [
      | inl e' ↦ inr (a, subst WithinIfAny (sym e') b)
      | inr (c, d) ↦ inr (a, d)
    ]
  ]

  pub Confines-indexed :
      (env : Env) (kind : Kind) (s t : Sidecar)
      → Confines s t
      → Confines s (after t (reingest env kind t))
  unfolding reingest
  Confines-indexed env kind s t k =
      Confines-trans s t (after t (reingest env kind t)) k
        (λ j. inl (ground (arith, find_row-clear_pending kind j t.rows)))

  pub Confines-append :
      (row : RecordRow) (s t : Sidecar)
      → Within row
      → any (λ r. r.id == row.id) s.rows ≡ false
      → t.rows ≡ s.rows ++ row ∷ []
      → Confines s t
  Confines-append row s t w free rows j =
      let at = find_row-append j s.rows (row ∷ []) in
      elim (Bool-cases (row.id == j)) [
        | inr other ↦ inl (ground (arith, rows, at))
        | inl here ↦
            let before : content (find_row j s.rows) ≡ none =
              ground (arith, find_row-absent row.id s.rows free, eq_iff row.id j) in
            let later : content (find_row j t.rows)
                ≡ some (record row { pending_reingest = false }) =
              ground (arith, rows, at, find_row-absent row.id s.rows free, eq_iff row.id j) in
            inr (subst WithinIfAny (sym before) tt, subst WithinIfAny (sym later) w)
      ]

  pub Confines-update :
      (id : String) (f : RecordRow → RecordRow) (s t : Sidecar)
      → KeepsId f
      → t.rows ≡ update_where id f s.rows
      → ((r : RecordRow) → find_row id s.rows ≡ some r → Within r × Within (f r))
      → Confines s t
  Confines-update id f s t k rows w j =
      let at = find_row-update_where f k id j s.rows in
      elim (Bool-cases (id == j)) [
        | inr other ↦ inl (ground (arith, rows, at))
        | inl here ↦ elim (Option-cases (find_row id s.rows)) [
          | inl e ↦ inl (ground (arith, rows, at, eq_iff id j))
          | inr (r, e) ↦
              let before : content (find_row j s.rows)
                  ≡ some (record r { pending_reingest = false }) =
                ground (arith, eq_iff id j) in
              let later : content (find_row j t.rows)
                  ≡ some (record (f r) { pending_reingest = false }) =
                ground (arith, rows, at, eq_iff id j) in
              let (a, b) = w r e in
              inr (subst WithinIfAny (sym before) a, subst WithinIfAny (sym later) b)
        ]
      ]

  pub Confines-delete :
      (id : String) (s t : Sidecar)
      → t.rows ≡ filter (λ r. not (r.id == id)) s.rows
      → ((r : RecordRow) → find_row id s.rows ≡ some r → Within r)
      → Confines s t
  Confines-delete id s t rows w j =
      let at = find_row-delete id j s.rows in
      elim (Bool-cases (id == j)) [
        | inr other ↦ inl (ground (arith, rows, at))
        | inl here ↦ elim (Option-cases (find_row id s.rows)) [
          | inl e ↦ inl (ground (arith, rows, at, eq_iff id j))
          | inr (r, e) ↦
              let before : content (find_row j s.rows)
                  ≡ some (record r { pending_reingest = false }) =
                ground (arith, eq_iff id j) in
              let later : content (find_row j t.rows) ≡ none = ground (arith, rows, at) in
              inr (subst WithinIfAny (sym before) (w r e), subst WithinIfAny (sym later) tt)
        ]
      ]
