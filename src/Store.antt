-- ===== src/Store.antt =====
-- Values by name: a Go map with text keys, or the objects of one kind in a namespace.
use mcp_media.Prelude.{
  ◌≡◌, refl, Option, none, some, List, [], ◌∷◌, if◌then◌else◌, arith, Bool-cases, inl, inr,
}
use mcp_media.Names.{String, ◌==◌, eq_refl, str_eq_iff}

module _ {A : Type 0} where
  unfoldable pub find : String → List (String × A) → Option A
  find name [] = none
  find name ((key, a) ∷ objects) = if key == name then some a else find name objects

  -- A new object comes last.
  unfoldable pub store : String → A → List (String × A) → List (String × A)
  store name a [] = (name, a) ∷ []
  store name a ((key, b) ∷ objects) =
      if key == name then (key, a) ∷ objects else (key, b) ∷ store name a objects

  pub find-store :
      (name other : String) (a : A) (objects : List (String × A))
      → find other (store name a objects) ≡ (if name == other then some a else find other objects)
  unfolding find store
  find-store name other a [] = refl
  find-store name other a ((key, b) ∷ objects) = ground (
    arith,
    str_eq_iff key name,
    str_eq_iff key other,
    str_eq_iff name other,
    find-store name other a objects,
  )

  pub find-store_self :
      (name : String) (a : A) (objects : List (String × A))
      → find name (store name a objects) ≡ some a
  find-store_self name a objects = simp (find-store, eq_refl)

  -- Storing what is there changes nothing.
  pub store_same :
      (name : String) (a : A) (objects : List (String × A))
      → find name objects ≡ some a
      → store name a objects ≡ objects
  unfolding find store
  store_same name a [] h = absurd (ground arith)
  store_same name a ((key, b) ∷ objects) h = elim (Bool-cases (key == name)) [
    | inl here ↦ ground arith
    | inr later ↦ ground (arith, store_same name a objects)
  ]
