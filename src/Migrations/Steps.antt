-- ===== src/Migrations/Steps.antt =====
-- What the statements of a migration make of the names of the catalog.
use mathlib.Core.Path.{subst, fun_ext}
use chekin_interview.Base.{
  String, ◌≡◌, refl, sym, ◌∙◌, ap, true, false, Option, none, some, List, [], ◌∷◌, eq_iff, inl, inr,
  Bool-cases,
}
use chekin_interview.Migrations.Catalog.{
  Table, Key, table_key, index_key, function_key, trigger_key, Object, a_table, same_key, needs,
  among, View, put, IsFree, Alteration, altered, Ddl,
}
use chekin_interview.Migrations.Revisions.{on_success, run}

same_key-eq : (j k : Key) → same_key j k ≡ true → j ≡ k
same_key-eq (table_key a) (table_key b) h = ap table_key ((eq_iff a b).0 h)
same_key-eq (index_key a) (index_key b) h = ap index_key ((eq_iff a b).0 h)
same_key-eq (function_key a) (function_key b) h = ap function_key ((eq_iff a b).0 h)
same_key-eq (trigger_key a) (trigger_key b) h = ap trigger_key ((eq_iff a b).0 h)
same_key-eq (table_key a) (index_key b) h = cc h
same_key-eq (table_key a) (function_key b) h = cc h
same_key-eq (table_key a) (trigger_key b) h = cc h
same_key-eq (index_key a) (table_key b) h = cc h
same_key-eq (index_key a) (function_key b) h = cc h
same_key-eq (index_key a) (trigger_key b) h = cc h
same_key-eq (function_key a) (table_key b) h = cc h
same_key-eq (function_key a) (index_key b) h = cc h
same_key-eq (function_key a) (trigger_key b) h = cc h
same_key-eq (trigger_key a) (table_key b) h = cc h
same_key-eq (trigger_key a) (index_key b) h = cc h
same_key-eq (trigger_key a) (function_key b) h = cc h

same_key_refl : (k : Key) → same_key k k ≡ true
same_key_refl (table_key a) = (eq_iff a a).1 refl
same_key_refl (index_key a) = (eq_iff a a).1 refl
same_key_refl (function_key a) = (eq_iff a a).1 refl
same_key_refl (trigger_key a) = (eq_iff a a).1 refl

put_self : (k : Key) (o : Option Object) (v : View) → put k o v k ≡ o
put_self k o v = rw (same_key_refl k) refl

-- A name that is given back what it had.
pub put-put : (k : Key) (o o' : Option Object) (v : View) → v k ≡ o → put k o (put k o' v) ≡ v
put-put k o o' v h = fun_ext λ j. elim (Bool-cases (same_key j k)) [
  | inl same ↦ rw same (sym h ∙ ap v (sym (same_key-eq j k same)))
  | inr differ ↦ rw differ refl
]

pub put-IsFree :
    (k i : Key) (o : Object) (v : View)
    → among k (needs o) ≡ false
    → IsFree k v
    → IsFree k (put i (some o) v)
put-IsFree k i o v own free j x = elim (Bool-cases (same_key j i)) [
  | inl same ↦
      rw same (λ h. let this : o ≡ x = cc h in subst (λ z. among k (needs z) ≡ false) this own)
  | inr differ ↦ rw differ (free j x)
]

module _ (d : Ddl) where
  open d use {Catalog, lookup, create, drop, alter}

  -- From a catalog with the names of one view, to one with those of the other, unless it is refused.
  abbrev pub Leads : (Catalog → Option Catalog) → View → View → Type 0
  Leads m v w = (s s' : Catalog) → lookup s ≡ v → m s ≡ some s' → lookup s' ≡ w

  -- Statements with the views between them.
  pub data Runs : List (Catalog → Option Catalog) → View → View → Type 0 where
    done : {v : View} → Runs [] v v
    step :
        {f : Catalog → Option Catalog} {fs : List (Catalog → Option Catalog)} {u v w : View}
        → Leads f u v
        → Runs fs v w
        → Runs (f ∷ fs) u w

  on_success-eq-some :
      (g : Catalog → Option Catalog) (o : Option Catalog) (s' : Catalog)
      → on_success d g o ≡ some s'
      → (t : Catalog) × (o ≡ some t) × (g t ≡ some s')
  on_success-eq-some g none s' h = cc h
  on_success-eq-some g (some t) s' h = (t, refl, h)

  pub Runs-Leads :
      {fs : List (Catalog → Option Catalog)} {u w : View} → Runs fs u w → Leads (run d fs) u w
  Runs-Leads done s s' at ran = let same : s ≡ s' = cc ran in ap lookup (sym same) ∙ at
  Runs-Leads (step {f} {fs} h k) s s' at ran =
      let (t, first, rest) = on_success-eq-some (run d fs) (f s) s' ran in
      Runs-Leads k t s' (h s t at first) rest

  pub create-Leads :
      (k : Key) (o : Object) (v : View) → v k ≡ none → Leads (create k o) v (put k (some o) v)
  create-Leads k o v unused s s' at ran =
      fun_ext (d.create_makes k o s s' (ap (λ u. u k) at ∙ unused) ran) ∙ ap (put k (some o)) at

  -- Of an object that has just been made.
  pub drop-Leads :
      (k : Key) (o : Object) (v : View)
      → v k ≡ none
      → IsFree k (put k (some o) v)
      → Leads (drop k) (put k (some o) v) v
  drop-Leads k o v unused free s s' at ran =
      fun_ext (
        d.drop_removes k s s' (λ gone. cc (sym gone ∙ ap (λ u. u k) at ∙ put_self k (some o) v))
          (subst (IsFree k) (sym at) free) ran)
      ∙ ap (put k none) at
      ∙ put-put k none (some o) v unused

  pub alter-Leads :
      (n : String) (a : Alteration) (t t' : Table) (v : View)
      → v (table_key n) ≡ some (a_table t)
      → IsFree (table_key n) v
      → altered a t ≡ some t'
      → Leads (alter n a) v (put (table_key n) (some (a_table t')) v)
  alter-Leads n a t t' v has free makes s s' at ran =
      fun_ext (
        d.alter_changes n a t t' s s' (ap (λ u. u (table_key n)) at ∙ has)
          (subst (IsFree (table_key n)) (sym at) free) makes ran)
      ∙ ap (put (table_key n) (some (a_table t'))) at
