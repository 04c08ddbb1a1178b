-- ===== src/Schemas/Parsing/Bodies.antt =====
-- The bodies that a request is parsed from.
use mathlib.Core.Path.{subst}
use chekin_interview.Base.{
  String, Bool, true, false, ◌≡◌, refl, sym, ◌∙◌, ap, ◌⊎◌, inl, inr, Option, none, some, List,
  str_eq, eq_iff, Bool-cases, both_true, if◌then◌else◌,
}
use chekin_interview.Base.Int.{ℤ}
use chekin_interview.Json.{
  Json, null, num, decimal, bool, str, arr, obj, Fields, end, field, lookup_field, member,
}
use chekin_interview.Schemas.{TransferRequest, is_positive_money}
use chekin_interview.Schemas.Parsing.{
  Reading, and_then, is_listed, only, required, checked, transfer_fields, transfer_of,
  parse_transfer_request,
}

-- A body with no other fields has no other members.
only-lookup_field :
    (names : List String) (fs : Fields) (k : String)
    → only names fs ≡ true
    → is_listed k names ≡ false
    → lookup_field k fs ≡ none
unfolding only
only-lookup_field names end k h other = refl
only-lookup_field names (field j v rest) k h other =
    let (listed, rest_only) = both_true (is_listed j names) (only names rest) h in
    elim (Bool-cases (str_eq j k)) [
      | inl same ↦ absurd (cc (listed, other, ap (λ n. is_listed n names) ((eq_iff j k).0 same)))
      | inr differ ↦ rw (differ, only-lookup_field names rest k rest_only other) refl
    ]

-- A step that has a value.
pub and_then-eq-some :
    {A B : Type 0} (o : Option A) (f : A → Option B) (b : B)
    → and_then o f ≡ some b
    → (a : A) × (o ≡ some a) × (f a ≡ some b)
and_then-eq-some none f b h = cc h
and_then-eq-some (some a) f b h = (a, refl, h)

pub checked-eq-some :
    (test : ℤ → Bool) (v w : ℤ) → checked test v ≡ some w → (v ≡ w) × (test w ≡ true)
unfolding checked
checked-eq-some test v w h = elim (Bool-cases (test v)) [
  | inl p ↦ let same : v ≡ w = cc (rw p at h) in (same, subst (λ x. test x ≡ true) same p)
  | inr p ↦ cc (rw p at h)
]

not_listed :
    (k : String)
    → str_eq k "from_account_id" ≡ false
    → str_eq k "to_account_id" ≡ false
    → str_eq k "amount" ≡ false
    → is_listed k transfer_fields ≡ false
unfolding is_listed
not_listed k a b c = rw (a, b, c) refl

module _ (p : Reading) where
  -- The body that a request was parsed from.
  pub record ParsedFrom (r : TransferRequest) (j : Json) : Type 0 where
    pub from_value : Json
    pub to_value : Json
    pub amount_value : Json
    pub has_from : member "from_account_id" j ≡ some from_value
    pub has_to : member "to_account_id" j ≡ some to_value
    pub has_amount : member "amount" j ≡ some amount_value
    pub reads_from : p.uuid from_value ≡ some r.from_account_id
    pub reads_to : p.uuid to_value ≡ some r.to_account_id
    pub reads_amount : p.money amount_value ≡ some r.amount
    pub positive : is_positive_money r.amount ≡ true
    pub no_other : (k : String) → is_listed k transfer_fields ≡ false → member k j ≡ none

  parsed :
      (fs : Fields) (r : TransferRequest)
      → only transfer_fields fs ≡ true
      → transfer_of p fs ≡ some r
      → ParsedFrom r (obj fs)
  unfolding transfer_of required
  parsed fs r forbids h =
      let (f, hf, h₁) = and_then-eq-some _ _ r h in
      let (t, ht, h₂) = and_then-eq-some _ _ r h₁ in
      let (g, hg, h₃) = and_then-eq-some _ _ r h₂ in
      let (a, ha, h₄) = and_then-eq-some _ _ r h₃ in
      let (u, hu, ru) = and_then-eq-some (lookup_field "from_account_id" fs) p.uuid f hf in
      let (v, hv, rv) = and_then-eq-some (lookup_field "to_account_id" fs) p.uuid t ht in
      let (w, hw, ra) = and_then-eq-some (lookup_field "amount" fs) p.money g hg in
      let (same, test) = checked-eq-some is_positive_money g a ha in
      let same_request : record { from_account_id = f; to_account_id = t; amount = a } ≡ r =
        cc h₄ in
      record {
        from_value = u;
        to_value = v;
        amount_value = w;
        has_from = hu;
        has_to = hv;
        has_amount = hw;
        reads_from = ru ∙ ap (λ (x : TransferRequest). some x.from_account_id) same_request;
        reads_to = rv ∙ ap (λ (x : TransferRequest). some x.to_account_id) same_request;
        reads_amount = ra ∙ ap some (same ∙ ap (λ (x : TransferRequest). x.amount) same_request);
        positive =
            subst (λ (x : TransferRequest). is_positive_money x.amount ≡ true) same_request test;
        no_other = λ k other. only-lookup_field transfer_fields fs k forbids other;
      }

  pub parse_transfer_request-ParsedFrom :
      (j : Json) (r : TransferRequest) → parse_transfer_request p j ≡ some r → ParsedFrom r j
  unfolding parse_transfer_request
  parse_transfer_request-ParsedFrom (obj fs) r h = elim (Bool-cases (only transfer_fields fs)) [
    | inl forbids ↦ parsed fs r forbids (rw forbids at h)
    | inr extra ↦ cc (rw extra at h)
  ]
  parse_transfer_request-ParsedFrom null r h = cc h
  parse_transfer_request-ParsedFrom (num n) r h = cc h
  parse_transfer_request-ParsedFrom (decimal t) r h = cc h
  parse_transfer_request-ParsedFrom (bool b) r h = cc h
  parse_transfer_request-ParsedFrom (str x) r h = cc h
  parse_transfer_request-ParsedFrom (arr xs) r h = cc h

  -- Two values of a field that are read as the same.
  abbrev pub Alike : String → Json → Json → Type 0
  Alike k x y = if str_eq k "amount" then p.money x ≡ p.money y else p.uuid x ≡ p.uuid y

  -- Two bodies that say the same: each field stands in neither, or in both with values that are read as
  -- the same.
  abbrev pub SameBody : Json → Json → Type 0
  SameBody j i =
      (k : String)
      → ((member k j ≡ none) × (member k i ≡ none))
        ⊎ ((x : Json) × (y : Json) × (member k j ≡ some x) × (member k i ≡ some y) × Alike k x y)

  module _ (r r' : TransferRequest) (j i : Json) (from_j : ParsedFrom r j)
      (from_i : ParsedFrom r' i) where
    members-Alike :
        SameBody j i
        → (k : String) (x y : Json) → member k j ≡ some x
        → member k i ≡ some y
        → Alike k x y
    members-Alike same k x y hx hy = elim (same k) [
      | inl (gone, _) ↦ absurd (cc (gone, hx))
      | inr (a, b, ha, hb, alike) ↦
          let ax : a ≡ x = cc (ha, hx) in
          let by : b ≡ y = cc (hb, hy) in
          subst (λ z. Alike k z y) ax (subst (λ z. Alike k a z) by alike)
    ]

    -- Bodies that say the same are parsed to the same request.
    pub SameBody-eq : SameBody j i → r ≡ r'
    SameBody-eq same =
        let from_eq : r.from_account_id ≡ r'.from_account_id = cc (
          members-Alike same "from_account_id" _ _ from_j.has_from from_i.has_from,
          from_j.reads_from,
          from_i.reads_from,
        ) in
        let to_eq : r.to_account_id ≡ r'.to_account_id = cc (
          members-Alike same "to_account_id" _ _ from_j.has_to from_i.has_to,
          from_j.reads_to,
          from_i.reads_to,
        ) in
        let amount_eq : r.amount ≡ r'.amount = cc (
          members-Alike same "amount" _ _ from_j.has_amount from_i.has_amount,
          from_j.reads_amount,
          from_i.reads_amount,
        ) in
        λ t. record { from_account_id = from_eq t; to_account_id = to_eq t; amount = amount_eq t }

    -- The same request is parsed from such bodies only.
    pub eq-SameBody : r ≡ r' → SameBody j i
    eq-SameBody e k = elim (Bool-cases (str_eq k "from_account_id")) [
      | inl is_from ↦ rw ((eq_iff k "from_account_id").0 is_from) (
          inr (
            from_j.from_value,
            from_i.from_value,
            from_j.has_from,
            from_i.has_from,
            from_j.reads_from
                ∙ ap (λ (x : TransferRequest). some x.from_account_id) e
                ∙ sym from_i.reads_from,
          ))
      | inr not_from ↦ elim (Bool-cases (str_eq k "to_account_id")) [
        | inl is_to ↦ rw ((eq_iff k "to_account_id").0 is_to) (
            inr (
              from_j.to_value,
              from_i.to_value,
              from_j.has_to,
              from_i.has_to,
              from_j.reads_to
                  ∙ ap (λ (x : TransferRequest). some x.to_account_id) e
                  ∙ sym from_i.reads_to,
            ))
        | inr not_to ↦ elim (Bool-cases (str_eq k "amount")) [
          | inl is_amount ↦ rw ((eq_iff k "amount").0 is_amount) (
              inr (
                from_j.amount_value,
                from_i.amount_value,
                from_j.has_amount,
                from_i.has_amount,
                from_j.reads_amount
                    ∙ ap (λ (x : TransferRequest). some x.amount) e
                    ∙ sym from_i.reads_amount,
              ))
          | inr not_amount ↦
              let other = not_listed k not_from not_to not_amount in
              inl (from_j.no_other k other, from_i.no_other k other)
        ]
      ]
    ]
