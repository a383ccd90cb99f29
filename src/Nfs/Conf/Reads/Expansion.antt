-- ===== src/Nfs/Conf/Reads/Expansion.antt =====
-- The jumps of conf_get_section into the section [environment].
use nfs_utils.Common.{
  ℕ, zero, suc, ◌≡◌, ◌≢◌, inl, inr, refl, sym, ◌∙◌, Option, none, some, [], ◌∷◌, arith, Bytes,
  codes, peek, Option-cases,
}
use nfs_utils.Nfs.Conf.{
  Bindings, conf_get_entry, Lookup, found, loops, nonempty, expand, get_section,
}

module _ (getenv : Bytes → Option Bytes) (b : Bindings) (arg : Option Bytes) where
  get_section-entry :
      (fuel : ℕ) (section tag value : Bytes)
      → conf_get_entry b section arg tag ≡ some value
      → get_section getenv b arg (suc fuel) section tag
        ≡ expand getenv (get_section getenv b arg fuel (codes "environment")) value
  unfolding get_section
  get_section-entry fuel section tag value entry = rw (entry, get_section) refl

  expand-unset :
      (again : Bytes → Lookup) (name : Bytes)
      → nonempty (getenv name) ≡ none
      → expand getenv again (b'$' ∷ name) ≡ again name
  unfolding expand
  expand-unset again name unset = rw unset refl

  expand-plain :
      (again : Bytes → Lookup) (value : Bytes)
      → peek value ≢ b'$'
      → expand getenv again value ≡ found value
  unfolding expand
  expand-plain again [] plain = refl
  expand-plain again (c ∷ s) plain = ground (arith, plain)

  -- Where [environment] has an entry whose value is its own name after a dollar sign, and the
  -- environment has no such variable, the look-up of that entry does not return, however many jumps
  -- it may make.
  pub get_section_loops :
      (name : Bytes)
      → nonempty (getenv name) ≡ none
      → conf_get_entry b (codes "environment") arg name ≡ some (b'$' ∷ name)
      → (fuel : ℕ) → get_section getenv b arg fuel (codes "environment") name ≡ loops
  unfolding get_section
  get_section_loops name unset entry zero = refl
  get_section_loops name unset entry (suc fuel) =
      get_section-entry fuel (codes "environment") name (b'$' ∷ name) entry
      ∙ expand-unset (get_section getenv b arg fuel (codes "environment")) name unset
      ∙ get_section_loops name unset entry fuel

  -- A look-up returns once its entry is one that is not looked up again.
  get_section-ends :
      (fuel : ℕ) (section tag : Bytes)
      → ((value : Bytes)
          → conf_get_entry b section arg tag ≡ some value
          → expand getenv (get_section getenv b arg fuel (codes "environment")) value ≢ loops)
      → get_section getenv b arg (suc fuel) section tag ≢ loops
  unfolding get_section
  get_section-ends fuel section tag each h =
      elim (Option-cases (conf_get_entry b section arg tag)) [
        | inl none_there ↦ ground (arith, none_there, h)
        | inr (value, entry) ↦
            each value entry (sym (get_section-entry fuel section tag value entry) ∙ h)
      ]

  expand-ends :
      (again : Bytes → Lookup) (value : Bytes)
      → ((name : Bytes) → again name ≢ loops)
      → expand getenv again value ≢ loops
  unfolding expand
  expand-ends again [] ends h = ground arith
  expand-ends again (c ∷ name) ends h = elim (Option-cases (nonempty (getenv name))) [
    | inl unset ↦ ground (arith, unset, ends name, h)
    | inr (env, set) ↦ ground (arith, set, h)
  ]

  -- If no value of [environment], under the argument of the call, begins with a dollar sign, a
  -- look-up returns with one jump at most.
  pub get_section_ends :
      ((name value : Bytes)
        → conf_get_entry b (codes "environment") arg name ≡ some value
        → peek value ≢ b'$')
      → (section tag : Bytes) (fuel : ℕ)
      → get_section getenv b arg (suc (suc fuel)) section tag ≢ loops
  get_section_ends plain section tag fuel = get_section-ends (suc fuel) section tag (λ value entry.
      expand-ends (get_section getenv b arg (suc fuel) (codes "environment")) value (λ name.
        get_section-ends fuel (codes "environment") name (λ value' entry' h. ground (
          arith,
          h,
          expand-plain (get_section getenv b arg fuel (codes "environment")) value'
              (plain name value' entry'),
        ))))
