-- ===== src/Plan/Edits.antt =====
-- The edits of the stage list in src/mcp/plan-server.ts: ids and the validity of the document.
use saivage.Base.{
  String, ◌≡◌, refl, ap, true, false, not, ◌&&◌, ◌||◌, Option, none, some, List, [], ◌∷◌, ◌++◌,
  arith, ◌==◌, eq_iff, eq_comm, all, elem, elem-append, all-append, Distinct, Disjoint, map-append,
  ◌∙◌,
}
use saivage.Plan.Document.{Stage, CompletedStage, PlanDocument, stage_ok, stage_ids, history_ids}
use saivage.Plan.Document.Valid.{IsValid, IsCurrentIn}
use saivage.Plan.Service.{
  Env, stamp_stage, remove_stage, has_stage, has_completed, find_stage, clear_current,
  stamp_current, names_stage,
}

pub has_stage-elem : (id : String) (ss : List Stage) → has_stage id ss ≡ elem id (stage_ids ss)
has_stage-elem id [] = refl
has_stage-elem id (s ∷ ss) = ap (λ b. (s.id == id) || b) (has_stage-elem id ss)

pub has_completed-elem :
    (id : String) (cs : List CompletedStage) → has_completed id cs ≡ elem id (history_ids cs)
has_completed-elem id [] = refl
has_completed-elem id (c ∷ cs) = ap (λ b. (c.id == id) || b) (has_completed-elem id cs)

pub names_stage→IsCurrentIn :
    (current : Option String) (ss : List Stage)
    → names_stage current ss ≡ true
    → IsCurrentIn current (stage_ids ss)
names_stage→IsCurrentIn none ss h = tt
names_stage→IsCurrentIn (some id) ss h = ground (arith, has_stage-elem id ss)

-- Removal.

pub elem-remove_stage :
    (id x : String) (ss : List Stage)
    → Distinct (stage_ids ss)
    → elem x (stage_ids (remove_stage id ss)) ≡ (elem x (stage_ids ss) && not (id == x))
unfolding remove_stage
elem-remove_stage id x [] d = refl
elem-remove_stage id x (s ∷ ss) d =
    ground (arith, elem-remove_stage id x ss, eq_iff s.id id, eq_iff s.id x, eq_iff id x)

Distinct-remove_stage :
    (id : String) (ss : List Stage)
    → Distinct (stage_ids ss)
    → Distinct (stage_ids (remove_stage id ss))
unfolding remove_stage
Distinct-remove_stage id [] d = tt
Distinct-remove_stage id (s ∷ ss) d =
    ground (arith, Distinct-remove_stage id ss, elem-remove_stage id s.id ss)

all-remove_stage :
    (id : String) (ss : List Stage)
    → all stage_ok ss ≡ true
    → all stage_ok (remove_stage id ss) ≡ true
unfolding remove_stage
all-remove_stage id [] h = refl
all-remove_stage id (s ∷ ss) h = ground (arith, all-remove_stage id ss)

Disjoint-remove_stage :
    (id : String) (xs : List String) (ss : List Stage)
    → Distinct (stage_ids ss)
    → Disjoint xs (stage_ids ss)
    → Disjoint xs (stage_ids (remove_stage id ss))
Disjoint-remove_stage id [] ss d h = tt
Disjoint-remove_stage id (x ∷ xs) ss d h =
    ground (arith, Disjoint-remove_stage id xs ss, elem-remove_stage id x ss)

-- Stamping the start changes no id and no condition of the schema.

stage_ids-stamp_stage :
    (env : Env) (id : String) (ss : List Stage) → stage_ids (stamp_stage env id ss) ≡ stage_ids ss
unfolding stamp_stage
stage_ids-stamp_stage env id [] = refl
stage_ids-stamp_stage env id (s ∷ ss) = ground (arith, stage_ids-stamp_stage env id ss)

all-stamp_stage :
    (env : Env) (id : String) (ss : List Stage)
    → all stage_ok (stamp_stage env id ss) ≡ all stage_ok ss
unfolding stamp_stage stage_ok
all-stamp_stage env id [] = refl
all-stamp_stage env id (s ∷ ss) = ground (arith, all-stamp_stage env id ss)

pub stage_ids-stamp_current :
    (env : Env) (current : Option String) (ss : List Stage)
    → stage_ids (stamp_current env current ss) ≡ stage_ids ss
stage_ids-stamp_current env none ss = refl
stage_ids-stamp_current env (some id) ss = stage_ids-stamp_stage env id ss

all-stamp_current :
    (env : Env) (current : Option String) (ss : List Stage)
    → all stage_ok (stamp_current env current ss) ≡ all stage_ok ss
all-stamp_current env none ss = refl
all-stamp_current env (some id) ss = all-stamp_stage env id ss

-- Appending.

Distinct-append_one :
    (xs : List String) (x : String) → Distinct xs → elem x xs ≡ false → Distinct (xs ++ x ∷ [])
Distinct-append_one [] x d h = ground arith
Distinct-append_one (y ∷ ys) x d h =
    ground (arith, Distinct-append_one ys x, elem-append y ys (x ∷ []), eq_comm x y)

Disjoint-append_right :
    (xs ys : List String) (x : String)
    → Disjoint xs ys
    → elem x xs ≡ false
    → Disjoint xs (ys ++ x ∷ [])
Disjoint-append_right [] ys x d h = tt
Disjoint-append_right (z ∷ xs) ys x d h =
    ground (arith, Disjoint-append_right xs ys x, elem-append z ys (x ∷ []), eq_comm x z)

Disjoint-append_left :
    (xs ys : List String) (x : String)
    → Disjoint xs ys
    → elem x ys ≡ false
    → Disjoint (xs ++ x ∷ []) ys
Disjoint-append_left [] ys x d h = ground arith
Disjoint-append_left (z ∷ xs) ys x d h = ground (arith, Disjoint-append_left xs ys x)

pub elem_of_Disjoint :
    (x : String) (xs ys : List String) → Disjoint xs ys → elem x ys ≡ true → elem x xs ≡ false
elem_of_Disjoint x [] ys d h = refl
elem_of_Disjoint x (z ∷ xs) ys d h = ground (arith, elem_of_Disjoint x xs ys, eq_iff z x)

pub elem_of_Disjoint_left :
    (x : String) (xs ys : List String) → Disjoint xs ys → elem x xs ≡ true → elem x ys ≡ false
elem_of_Disjoint_left x [] ys d h = cc
elem_of_Disjoint_left x (z ∷ xs) ys d h = ground (arith, elem_of_Disjoint_left x xs ys, eq_iff z x)

-- What `find` returns.

pub find_stage-id :
    (id : String) (ss : List Stage) {s : Stage} → find_stage id ss ≡ some s → s.id ≡ id
find_stage-id id (t ∷ ss) {s} h = ground (arith, find_stage-id id ss {s = s}, eq_iff t.id id)
find_stage-id id [] h = cc

pub find_stage-elem :
    (id : String) (ss : List Stage) {s : Stage}
    → find_stage id ss ≡ some s
    → elem id (stage_ids ss) ≡ true
find_stage-elem id (t ∷ ss) {s} h = ground (arith, find_stage-elem id ss {s = s})
find_stage-elem id [] h = cc

-- No id stays after its removal.
pub elem-remove_stage_self :
    (id : String) (ss : List Stage)
    → Distinct (stage_ids ss)
    → elem id (stage_ids (remove_stage id ss)) ≡ false
elem-remove_stage_self id ss d = ground (arith, elem-remove_stage id id ss d, eq_iff id id)

clear_current-IsCurrentIn :
    (id : String) (current : Option String) (ss : List Stage)
    → Distinct (stage_ids ss)
    → IsCurrentIn current (stage_ids ss)
    → IsCurrentIn (clear_current id current) (stage_ids (remove_stage id ss))
clear_current-IsCurrentIn id none ss d h = tt
clear_current-IsCurrentIn id (some c) ss d h =
    ground (arith, elem-remove_stage id c ss d, eq_iff c id, eq_iff id c)

IsCurrentIn-append :
    (current : Option String) (xs ys : List String)
    → IsCurrentIn current xs
    → IsCurrentIn current (xs ++ ys)
IsCurrentIn-append none xs ys h = tt
IsCurrentIn-append (some c) xs ys h = ground (arith, elem-append c xs ys)

-- The edits keep a document valid.

module _ {doc : PlanDocument} (v : IsValid doc) (now : String) where
  pub add-IsValid :
      (stage : Stage)
      → (has_stage stage.id doc.stages || has_completed stage.id doc.history) ≡ false
      → stage_ok stage ≡ true
      → IsValid (record doc { stages = doc.stages ++ stage ∷ []; updated_at = now })
  add-IsValid stage fresh fits =
      let ids = map-append (λ (s : Stage). s.id) doc.stages (stage ∷ []) in
      let new_active : elem stage.id (stage_ids doc.stages) ≡ false =
        ground (arith, has_stage-elem stage.id doc.stages) in
      let new_past : elem stage.id (history_ids doc.history) ≡ false =
        ground (arith, has_completed-elem stage.id doc.history) in
      record {
        fits = all-append stage_ok doc.stages (stage ∷ []) ∙ ground (arith, v.fits);
        active = rw ids (Distinct-append_one (stage_ids doc.stages) stage.id v.active new_active);
        past = v.past;
        apart = rw ids (
            Disjoint-append_right (history_ids doc.history) (stage_ids doc.stages) stage.id v.apart
              new_past);
        current = rw ids (
            IsCurrentIn-append doc.current_stage_id (stage_ids doc.stages) (stage.id ∷ [])
              v.current);
      }

  pub append-IsValid :
      (c : CompletedStage)
      → elem c.id (stage_ids doc.stages) ≡ false
      → elem c.id (history_ids doc.history) ≡ false
      → IsValid (record doc { history = doc.history ++ c ∷ []; updated_at = now })
  append-IsValid c new_active new_past =
      let ids = map-append (λ (s : CompletedStage). s.id) doc.history (c ∷ []) in
      record {
        fits = v.fits;
        active = v.active;
        past = rw ids (Distinct-append_one (history_ids doc.history) c.id v.past new_past);
        apart = rw ids (
            Disjoint-append_left (history_ids doc.history) (stage_ids doc.stages) c.id v.apart
              new_active);
        current = v.current;
      }

  pub remove-IsValid :
      (id : String)
      → IsValid (record doc {
        updated_at = now;
        current_stage_id = clear_current id doc.current_stage_id;
        stages = remove_stage id doc.stages;
      })
  remove-IsValid id = record {
    fits = all-remove_stage id doc.stages v.fits;
    active = Distinct-remove_stage id doc.stages v.active;
    past = v.past;
    apart = Disjoint-remove_stage id (history_ids doc.history) doc.stages v.active v.apart;
    current = clear_current-IsCurrentIn id doc.current_stage_id doc.stages v.active v.current;
  }

  pub set_current-IsValid :
      (env : Env) (current : Option String)
      → names_stage current doc.stages ≡ true
      → IsValid (record doc {
        updated_at = now;
        current_stage_id = current;
        stages = stamp_current env current doc.stages;
      })
  set_current-IsValid env current h = record {
    fits = all-stamp_current env current doc.stages ∙ v.fits;
    active = rw (stage_ids-stamp_current env current doc.stages) v.active;
    past = v.past;
    apart = rw (stage_ids-stamp_current env current doc.stages) v.apart;
    current =
        rw (stage_ids-stamp_current env current doc.stages)
          (names_stage→IsCurrentIn current doc.stages h);
  }
