-- ===== src/Controller/Api/Laws.antt =====
-- An object that was brought into shape stays as it is.
use mcp_media.Prelude.{◌≡◌, refl, ap, ◌∙◌, ◌⊎◌, inl, inr, Bool, true, Option, some, none, List}
use mcp_media.Names.{String}
use mcp_media.Checked.{Result, ok, err}
use mcp_media.Store.{find, store, find-store_self}
use mcp_media.Controller.Cluster.{Failure}
use mcp_media.Controller.Api.{CreateOrUpdate, current, IsSetOwner, IsCreateOrUpdate}

-- No other controller owns the object.
abbrev pub IsOwnable : String → Option String → Type 0
IsOwnable uid owner = (owner ≡ none) ⊎ (owner ≡ some uid)

module _ (set_owner : String → Option String → Result Failure (Option String))
    (law : IsSetOwner set_owner) where
  pub set_owner_again :
      (uid : String) (owner : Option String) {o : Option String}
      → set_owner uid owner ≡ ok o
      → set_owner uid o ≡ ok o
  set_owner_again uid owner h = rw (law.sets uid owner _ h) (law.own uid)

  pub set_owner_of_IsOwnable :
      (uid : String) (owner : Option String)
      → IsOwnable uid owner
      → set_owner uid owner ≡ ok (some uid)
  set_owner_of_IsOwnable uid owner (inl free) = rw free (law.free uid)
  set_owner_of_IsOwnable uid owner (inr own) = rw own (law.own uid)

paired : {A B : Type 0} (p : A × B) {a : A} {b : B} → p.0 ≡ a → p.1 ≡ b → p ≡ (a, b)
paired p {a} h k = ap (λ x. (x, p.1)) h ∙ ap (λ y. (a, y)) k

-- The object is there, it is in shape, and it can be read.
pub record IsSettled {A : Type 0} (reads : Bool) (name : String) (shape : A → Result Failure A)
    (objects : List (String × A)) (a : A) : Type 0 where
  pub readable : reads ≡ true
  pub stored : find name objects ≡ some a
  pub in_shape : shape a ≡ ok a

module _ {A : Type 0} (reads writes : Bool) (f : CreateOrUpdate A)
    (law : IsCreateOrUpdate reads writes f) (name : String) (blank : A)
    (shape : A → Result Failure A) (objects : List (String × A)) where
  pub put_of_IsSettled :
      (a : A) → IsSettled reads name shape objects a → f name blank shape objects ≡ (objects, ok a)
  put_of_IsSettled a s = law.leaves name blank shape objects a s.readable s.stored s.in_shape

  -- The call fails and changes nothing, or leaves the object settled.
  pub put_cases :
      ((a b : A) → shape a ≡ ok b → shape b ≡ ok b)
      → ((e : Failure) × (f name blank shape objects ≡ (objects, err e)))
        ⊎ ((a : A) × (f name blank shape objects ≡ (store name a objects, ok a))
            × IsSettled reads name shape (store name a objects) a)
  put_cases again = by_result (f name blank shape objects).1 refl
    where
      by_result :
          (r : Result Failure A)
          → (f name blank shape objects).1 ≡ r
          → ((e : Failure) × (f name blank shape objects ≡ (objects, err e)))
            ⊎ ((a : A) × (f name blank shape objects ≡ (store name a objects, ok a))
                × IsSettled reads name shape (store name a objects) a)
      by_result (err e) raised = inl (
        e,
        paired (f name blank shape objects) (law.fails_unchanged name blank shape objects e raised)
            raised,
      )
      by_result (ok a) given =
          let (reads_it, shaped, stores_it) = law.stores name blank shape objects a given in
          inr (
            a,
            paired (f name blank shape objects) stores_it given,
            record {
              readable = reads_it;
              stored = find-store_self name a objects;
              in_shape = again (current blank (find name objects)) a shaped;
            },
          )
