-- ===== src/Connection/Typed.antt =====
-- What the answers of a plugin hold: `call_plugin` of roscope/plugin.py.
use roscope.Base.{
  false, if◌then◌else◌, ◌∙◌, keys, ◌↔◌, ◌⊎◌, contains_text, contains_text-keys-insert, arith, chars,
  TextMem, contains_text_iff, Text, Dict, true, List, [], ◌∷◌, Option, none, some, return, raise,
  insert, text_eq, All, ◌≡◌, refl, inl, inr, Bool-cases, text_eq_iff, subst, sym,
}
use roscope.Namespace.{truthy}
use roscope.Connection.{
  Returned, raised, nothing, not_a_dict, dict, not_exactly_one, same_bool, recognized_types,
  is_recognized, validate, covered, Plugin, call_plugin,
}
use roscope.Connection.WellFormed.{All-insert, some_same, same_result}

-- The six types of connections.
pub data IsConnectionType : Text → Type 0 where
  publisher : IsConnectionType (chars "publisher")
  subscription : IsConnectionType (chars "subscription")
  service_client : IsConnectionType (chars "service_client")
  service_server : IsConnectionType (chars "service_server")
  action_client : IsConnectionType (chars "action_client")
  action_server : IsConnectionType (chars "action_server")

abbrev pub HasConnectionType : Option Text → Type 0
HasConnectionType none = Unit
HasConnectionType (some t) = IsConnectionType t

one_of_six : (t : Text) → TextMem t recognized_types → IsConnectionType t
one_of_six t (inl e) = subst IsConnectionType e publisher
one_of_six t (inr (inl e)) = subst IsConnectionType e subscription
one_of_six t (inr (inr (inl e))) = subst IsConnectionType e service_client
one_of_six t (inr (inr (inr (inl e)))) = subst IsConnectionType e service_server
one_of_six t (inr (inr (inr (inr (inl e))))) = subst IsConnectionType e action_client
one_of_six t (inr (inr (inr (inr (inr (inl e)))))) = subst IsConnectionType e action_server
one_of_six t (inr (inr (inr (inr (inr (inr never)))))) = absurd never

-- Membership in what one entry and the entries behind it add.
further : {A B V C D : Type 0} → A ↔ (D ⊎ C) → D ↔ (B ⊎ V) → A ↔ (B ⊎ (V ⊎ C))
further h k = (
  λ a. elim (h.0 a) [
    | inl d ↦ elim (k.0 d) [ inl b ↦ inl b | inr v ↦ inr (inl v) ]
    | inr c ↦ inr (inr c)
  ],
  λ x. elim x [
    | inl b ↦ h.1 (inl (k.1 (inl b)))
    | inr (inl v) ↦ h.1 (inl (k.1 (inr v)))
    | inr (inr c) ↦ h.1 (inr c)
  ],
)

nothing_new : {B : Type 0} → B ↔ (B ⊎ ⊥)
nothing_new = (λ b. inl b, λ s. elim s [ inl b ↦ b | inr never ↦ absurd never ])

module _ (Meta : Type 0) (type_of : Meta → Option Text) where
  -- The type of the metadata is missing or one of the six.
  abbrev pub IsTyped : Text × Meta → Type 0
  IsTyped e = HasConnectionType (type_of e.1)

  is_recognized-HasConnectionType :
      (t : Option Text) → is_recognized Meta type_of t ≡ true → HasConnectionType t
  is_recognized-HasConnectionType none h = tt
  is_recognized-HasConnectionType (some t) h =
      one_of_six t ((contains_text_iff recognized_types t).0 h)

  validate-IsTyped :
      (entries : List (Option Text × Option Meta)) (validated : Dict Meta)
      → All IsTyped validated
      → All IsTyped (validate Meta type_of entries validated)
  unfolding validate
  validate-IsTyped [] validated h = h
  validate-IsTyped ((none, meta) ∷ entries) validated h = validate-IsTyped entries validated h
  validate-IsTyped ((some c, none) ∷ entries) validated h = validate-IsTyped entries validated h
  validate-IsTyped ((some c, some meta) ∷ entries) validated h =
      elim (Bool-cases (is_recognized Meta type_of (type_of meta))) [
        | inl known ↦ rw known (
            validate-IsTyped entries _ (
              All-insert IsTyped c meta validated
                (is_recognized-HasConnectionType (type_of meta) known) h))
        | inr unknown ↦ rw unknown (validate-IsTyped entries validated h)
      ]

  -- An entry with the name and with metadata of such a type.
  abbrev IsValidFor : Text → Option Text × Option Meta → Type 0
  IsValidFor c (some connection, some meta) = (connection ≡ c) × HasConnectionType (type_of meta)
  IsValidFor c _ = ⊥

  abbrev pub SomeValid : Text → List (Option Text × Option Meta) → Type 0
  SomeValid c [] = ⊥
  SomeValid c (e ∷ entries) = IsValidFor c e ⊎ SomeValid c entries

  -- The entries of an answer that is a dictionary.
  abbrev pub entries_of : Returned Meta type_of → List (Option Text × Option Meta)
  entries_of (dict entries) = entries
  entries_of _ = []

  HasConnectionType-is_recognized :
      (t : Option Text) → HasConnectionType t → is_recognized Meta type_of t ≡ true
  unfolding contains_text text_eq
  HasConnectionType-is_recognized none h = refl
  HasConnectionType-is_recognized (some t) publisher = refl
  HasConnectionType-is_recognized (some t) subscription = refl
  HasConnectionType-is_recognized (some t) service_client = refl
  HasConnectionType-is_recognized (some t) service_server = refl
  HasConnectionType-is_recognized (some t) action_client = refl
  HasConnectionType-is_recognized (some t) action_server = refl

  key-insert :
      (c k : Text) (meta : Meta) (d : Dict Meta)
      → TextMem c (keys (insert k meta d)) ↔ ((k ≡ c) ⊎ TextMem c (keys d))
  key-insert c k meta d = ground (
    arith,
    contains_text-keys-insert k c meta d,
    contains_text_iff (keys (insert k meta d)) c,
    contains_text_iff (keys d) c,
    text_eq_iff k c,
  )

  validate-keys :
      (c : Text) (entries : List (Option Text × Option Meta)) (validated : Dict Meta)
      → TextMem c (keys (validate Meta type_of entries validated))
        ↔ (TextMem c (keys validated) ⊎ SomeValid c entries)
  unfolding validate
  validate-keys c [] validated = (λ h. inl h, λ h. elim h [ inl m ↦ m | inr never ↦ absurd never ])
  validate-keys c ((none, meta) ∷ entries) validated =
      further (validate-keys c entries validated) nothing_new
  validate-keys c ((some k, none) ∷ entries) validated =
      further (validate-keys c entries validated) nothing_new
  validate-keys c ((some k, some meta) ∷ entries) validated =
      further (validate-keys c entries _)
        (added (Bool-cases (is_recognized Meta type_of (type_of meta))))
    where
      added :
          (is_recognized Meta type_of (type_of meta) ≡ true)
            ⊎ (is_recognized Meta type_of (type_of meta) ≡ false)
          → TextMem c (
              keys (
                if is_recognized Meta type_of (type_of meta)
                then insert k meta validated
                else validated))
            ↔ (TextMem c (keys validated) ⊎ ((k ≡ c) × HasConnectionType (type_of meta)))
      added (inl known) = rw known (
        λ m. elim ((key-insert c k meta validated).0 m) [
          | inl e ↦ inr (e, is_recognized-HasConnectionType (type_of meta) known)
          | inr old ↦ inl old
        ],
        λ s. elim s [
          | inl old ↦ (key-insert c k meta validated).1 (inr old)
          | inr new ↦ (key-insert c k meta validated).1 (inl new.0)
        ],
      )
      added (inr unknown) = rw unknown (
        λ m. inl m,
        λ s. elim s [
          | inl old ↦ old
          | inr new ↦
              absurd (clash (sym (HasConnectionType-is_recognized (type_of meta) new.1) ∙ unknown))
        ],
      )
        where
          clash : true ≡ false → ⊥
          clash f = cc

  covered-keys :
      (c : Text) (answer : Returned Meta type_of) (metas : Dict Meta)
      → covered Meta type_of answer ≡ some metas
      → TextMem c (keys metas) ↔ SomeValid c (entries_of answer)
  unfolding keys
  covered-keys c raised metas e =
      subst (λ d. TextMem c (keys d) ↔ ⊥) (some_same _ _ e) (λ h. h, λ h. h)
  covered-keys c nothing metas e = absurd (cc)
  covered-keys c not_a_dict metas e =
      subst (λ d. TextMem c (keys d) ↔ ⊥) (some_same _ _ e) (λ h. h, λ h. h)
  covered-keys c (dict entries) metas e =
      subst (λ d. TextMem c (keys d) ↔ SomeValid c entries) (some_same _ _ e)
        (without (validate-keys c entries []))
    where
      without : {A C : Type 0} → A ↔ (⊥ ⊎ C) → A ↔ C
      without h = (λ x. elim (h.0 x) [ inl never ↦ absurd never | inr y ↦ y ], λ y. h.1 (inr y))

  covered-IsTyped :
      (answer : Returned Meta type_of) (metas : Dict Meta)
      → covered Meta type_of answer ≡ some metas
      → All IsTyped metas
  covered-IsTyped raised metas e = subst (All IsTyped) (some_same _ _ e) tt
  covered-IsTyped nothing metas e = cc
  covered-IsTyped not_a_dict metas e = subst (All IsTyped) (some_same _ _ e) tt
  covered-IsTyped (dict entries) metas e =
      subst (All IsTyped) (some_same _ _ e) (validate-IsTyped entries [] tt)

  -- Whatever a plugin returns, each connection that `call_plugin` passes on has no type or one of
  -- the six; and it passes on exactly the names for which the answer is a dictionary with an entry
  -- of that name whose metadata is a dictionary with no type or one of the six.
  pub call_plugin-IsTyped :
      (plugin_fn : Plugin Meta type_of) (executable plugin_name : Option Text) (metas : Dict Meta)
      → call_plugin Meta type_of (some plugin_fn) executable plugin_name ≡ return (some metas)
      → All IsTyped metas
        × ((c : Text)
            → TextMem c (keys metas) ↔ SomeValid c (entries_of (plugin_fn executable plugin_name)))
  unfolding call_plugin
  call_plugin-IsTyped plugin_fn executable plugin_name metas e =
      elim (Bool-cases (same_bool (truthy executable) (truthy plugin_name))) [
        | inl both ↦ absurd (clash (rw both at e))
        | inr one ↦
            let same = same_result _ _ (rw one at e) in
            (
              covered-IsTyped (plugin_fn executable plugin_name) metas same,
              λ c. covered-keys c (plugin_fn executable plugin_name) metas same,
            )
      ]
    where
      clash : raise not_exactly_one ≡ return (some metas) → ⊥
      clash f = cc
