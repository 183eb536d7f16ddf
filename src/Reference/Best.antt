-- ===== src/Reference/Best.antt =====
-- The registered vehicle that a report is: by the best of its valid keys.
use obehy.Prelude.{String, ◌≡◌, refl, ap, subst, Option, none, some, List, [], ◌∷◌, ◌++◌, string_eq}
use obehy.Prelude.Dict.{Dict, lookup}
use obehy.Prelude.Lists.{All}
use obehy.Model.Facts.{Date}
use obehy.Reference.Registry.{
  RegistryKey, best, BoundBy, Registry, key_eq, keys_at, by_scheme, by_schemes, bound,
}
use obehy.Reference.Least.{IsBest, NoneValid, best-some, best-none}

-- The report states no identifier of the scheme that a valid key has.
abbrev pub Silent : Registry → Dict String String → Date → String × (String → String) → Type 0
Silent registry stated day scheme =
    (value : String)
    → lookup scheme.0 stated ≡ some value
    → NoneValid day (keys_at (scheme.0, scheme.1 value) registry.by_identifier)

-- Which vehicle a report is: that of the best valid key of its source's ID; else, of the first
-- scheme in the vocabulary's order under which a valid key has a stated identifier, the best such
-- key's; else none.
pub data Binds (registry : Registry) (source id : String) (stated : Dict String String) (day : Date)
    : Option (String × BoundBy) → Type 0 where
  own :
      (found : String)
      → IsBest day (keys_at (source, id) registry.by_source) found
      → Binds registry source id stated day (some (found, BoundBy.by_source))
  stated_by :
      (before after : List (String × (String → String))) (name : String)
      (normalise : String → String) (value found : String)
      → NoneValid day (keys_at (source, id) registry.by_source)
      → registry.identifiers ≡ before ++ (name, normalise) ∷ after
      → All (Silent registry stated day) before
      → lookup name stated ≡ some value
      → IsBest day (keys_at (name, normalise value) registry.by_identifier) found
      → Binds registry source id stated day (some (found, BoundBy.by_identifier))
  unknown :
      NoneValid day (keys_at (source, id) registry.by_source)
      → All (Silent registry stated day) registry.identifiers
      → Binds registry source id stated day none

module _ (registry : Registry) (stated : Dict String String) (day : Date) where
  abbrev Scheme : Type 0
  Scheme = String × (String → String)

  abbrev First : List Scheme → Option String → Type 0
  First schemes none = All (Silent registry stated day) schemes
  First schemes (some found) =
      (before : List Scheme) × (after : List Scheme) × (name : String) × (normalise : String
        → String)
      × (value : String) × (schemes ≡ before ++ (name, normalise) ∷ after)
      × All (Silent registry stated day) before
      × (lookup name stated ≡ some value)
      × IsBest day (keys_at (name, normalise value) registry.by_identifier) found

  First-cons :
      (s : Scheme) (schemes : List Scheme) (o : Option String)
      → Silent registry stated day s
      → First schemes o
      → First (s ∷ schemes) o
  First-cons s schemes none h k = (h, k)
  First-cons s schemes (some found) h
        (before, after, name, normalise, value, e, silent, there, best) =
      (
        s ∷ before,
        after,
        name,
        normalise,
        value,
        ap (λ (l : List Scheme). s ∷ l) e,
        (h, silent),
        there,
        best,
      )

  -- What one scheme gives: the best key of the identifier stated, if any.
  abbrev Gives : Scheme → Option String → Type 0
  Gives scheme none = Silent registry stated day scheme
  Gives scheme (some found) =
      (value : String) × (lookup scheme.0 stated ≡ some value)
      × IsBest day (keys_at (scheme.0, scheme.1 value) registry.by_identifier) found

  by_scheme-Gives :
      (name : String) (normalise : String → String)
      → Gives (name, normalise) (by_scheme registry stated day (name, normalise))
  unfolding by_scheme
  by_scheme-Gives name normalise = go (lookup name stated) refl
    where
      found_at :
          (value : String) (o : Option String)
          → best (keys_at (name, normalise value) registry.by_identifier) day ≡ o
          → lookup name stated ≡ some value
          → Gives (name, normalise) o
      found_at value none e q = λ other q'.
          subst (λ (v : String). NoneValid day (keys_at (name, normalise v) registry.by_identifier))
            (cc) (best-none (keys_at (name, normalise value) registry.by_identifier) day e)
      found_at value (some found) e q =
          (value, q, best-some (keys_at (name, normalise value) registry.by_identifier) day found e)

      go :
          (o : Option String)
          → lookup name stated ≡ o
          → Gives (name, normalise) (by_scheme registry stated day (name, normalise))
      go none q = rw (q, by_scheme) (λ value e. absurd (cc))
      go (some value) q =
          rw (q, by_scheme)
            (found_at value (best (keys_at (name, normalise value) registry.by_identifier) day) refl
              q)

  by_schemes-First :
      (schemes : List Scheme) → First schemes (by_schemes registry stated day schemes)
  unfolding by_schemes
  by_schemes-First [] = tt
  by_schemes-First ((name, normalise) ∷ schemes) =
      go (by_scheme registry stated day (name, normalise)) refl (by_scheme-Gives name normalise)
        (by_schemes-First schemes)
    where
      go :
          (o : Option String)
          → by_scheme registry stated day (name, normalise) ≡ o
          → Gives (name, normalise) (by_scheme registry stated day (name, normalise))
          → First schemes (by_schemes registry stated day schemes)
          → First
              ((name, normalise) ∷ schemes)
              (by_schemes registry stated day ((name, normalise) ∷ schemes))
      go none e g rest =
          rw (e, by_schemes)
            (First-cons (name, normalise) schemes (by_schemes registry stated day schemes)
              (subst (Gives (name, normalise)) e g) rest)
      go (some found) e g rest =
          let (value, there, best) = subst (Gives (name, normalise)) e g in
          rw (e, by_schemes) ([], schemes, name, normalise, value, refl, tt, there, best)

  -- `bound` names the vehicle of the best valid key of the source's own ID; without one, that of
  -- the best valid key of an identifier that the report states, by the first scheme of the
  -- vocabulary that has one; and none exactly when no valid key has either.
  pub bound-Binds :
      (source id : String)
      → Binds registry source id stated day (bound registry source id stated day)
  unfolding bound
  bound-Binds source id =
      go (best keys day) refl (by_schemes registry stated day registry.identifiers) refl
        (by_schemes-First registry.identifiers)
    where
      keys : List RegistryKey
      keys = keys_at (source, id) registry.by_source

      go :
          (o : Option String)
          → best keys day ≡ o
          → (p : Option String) → by_schemes registry stated day registry.identifiers ≡ p
          → First registry.identifiers (by_schemes registry stated day registry.identifiers)
          → Binds registry source id stated day (bound registry source id stated day)
      go (some found) e p q f = rw (e, bound) (own found (best-some keys day found e))
      go none e none q f =
          rw (e, bound)
            (rw q (unknown (best-none keys day e) (subst (First registry.identifiers) q f)))
      go none e (some found) q f =
          let (before, after, name, normalise, value, split, silent, there, best) =
            subst (First registry.identifiers) q f in
          rw (e, bound)
            (rw q (
              stated_by before after name normalise value found (best-none keys day e) split silent
                there best))
