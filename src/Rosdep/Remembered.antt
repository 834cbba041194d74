-- ===== src/Rosdep/Remembered.antt =====
-- What roscope/rosdep.py does once per process.
use roscope.Base.{
  Text, true, List, [], ◌∷◌, Result, return, raise, ◌≡◌, refl, ap, ◌∙◌, inl, inr, Bool-cases,
  Option-cases, sorted, contains_text, All,
}
use roscope.Base.Stateful.{continue}
use roscope.Machine.{Machine}
use roscope.Rosdep.Install.{
  Process, Rosdep, RosdepError, pip_supports_break_system_packages, ensure_rosdep_updated,
  installed_packages, not_in, install_keys, rosdep_install,
}

module _ {W : Type 0} (m : Machine W) where
  -- A second call that returns what the first returned, and changes nothing.
  abbrev pub IsRemembered : {A : Type 0} → Rosdep m A → Type 0
  IsRemembered f = (p : Process W) → f (f p).1 ≡ f p

  ensure_rosdep_updated-twice : IsRemembered (ensure_rosdep_updated m)
  unfolding ensure_rosdep_updated
  ensure_rosdep_updated-twice p = elim (Bool-cases p.is_updated) [
    | inl updated ↦ rw updated refl
    | inr first ↦ rw first refl
  ]

  installed_packages-twice : IsRemembered (installed_packages m)
  unfolding installed_packages
  installed_packages-twice p = elim (Option-cases p.installed_cache) [
    | inl first ↦ rw first refl
    | inr known ↦ rw known.1 refl
  ]

  pip_supports-twice : IsRemembered (pip_supports_break_system_packages m)
  unfolding pip_supports_break_system_packages
  pip_supports-twice p = elim (Option-cases p.break_system) [
    | inl first ↦ rw first refl
    | inr known ↦ rw known.1 refl
  ]

  -- A second update of rosdep, search for installed packages or question to pip, right behind the first,
  -- returns the same and changes nothing.
  pub rosdep_caches-remembered :
      (p : Process W)
      → (ensure_rosdep_updated m (ensure_rosdep_updated m p).1 ≡ ensure_rosdep_updated m p)
        × (installed_packages m (installed_packages m p).1 ≡ installed_packages m p)
        × (pip_supports_break_system_packages m (pip_supports_break_system_packages m p).1
            ≡ pip_supports_break_system_packages m p)
  rosdep_caches-remembered p =
      (ensure_rosdep_updated-twice p, installed_packages-twice p, pip_supports-twice p)

  not_in-installed :
      (installed keys : List Text)
      → All (λ key. contains_text installed key ≡ true) keys
      → not_in installed keys ≡ []
  not_in-installed installed [] h = refl
  not_in-installed installed (key ∷ keys) h = rw h.0 (not_in-installed installed keys h.1)

  installed_packages-disk : (p : Process W) → (installed_packages m p).1.disk ≡ p.disk
  unfolding installed_packages
  installed_packages-disk p = elim (Option-cases p.installed_cache) [
    | inl first ↦ rw first refl
    | inr known ↦ rw known.1 refl
  ]

  install_nothing :
      (names keys : List Text) (r : Result RosdepError (List Text)) (p : Process W)
      → r ≡ return names
      → not_in names keys ≡ []
      → continue r (λ installed. install_keys m (sorted (not_in installed keys))) p ≡ (return tt, p)
  unfolding sorted
  install_nothing names keys (raise e) p h none_left = cc
  install_nothing names keys (return found) p h none_left = rw (value h) (rw none_left refl)
    where
      value : ◌≡◌ {A = Result RosdepError (List Text)} (return found) (return names) → found ≡ names
      value e = cc

  -- For keys that are all installed as ROS packages, `rosdep_install` returns and leaves the machine as
  -- it was.
  rosdep_install-installed :
      (names keys : List Text) (p : Process W)
      → (installed_packages m p).0 ≡ return names
      → All (λ key. contains_text names key ≡ true) keys
      → ((rosdep_install m keys p).0 ≡ return tt) × ((rosdep_install m keys p).1.disk ≡ p.disk)
  unfolding rosdep_install sorted installed_packages
  rosdep_install-installed names [] p known h = (refl, refl)
  rosdep_install-installed names (key ∷ keys) p known h =
      let nothing =
        install_nothing names (key ∷ keys) (installed_packages m p).0 (installed_packages m p).1
          known (not_in-installed names (key ∷ keys) h) in
      (ap (λ o. o.0) nothing, ap (λ o. o.1.disk) nothing ∙ installed_packages-disk p)
