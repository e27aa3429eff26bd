-- ===== src/Controller/Api.antt =====
-- The libraries that internal/controller calls: the client of the API server, and controllerutil with
-- what its documentation says of the two functions that are called.
pub mod Laws
use mcp_media.Prelude.{◌≡◌, Bool, true, Option, some, none, List}
use mcp_media.Names.{String}
use mcp_media.Checked.{Result, ok, err}
use mcp_media.Store.{find, store}
use mcp_media.Controller.Cluster.{
  Service, Ingress, Call, get_service, write_service, get_ingress, write_ingress, Failure,
}

-- The function takes a name, what the code passes for a missing object, and what brings an object
-- into shape.
abbrev pub CreateOrUpdate : Type 0 → Type 0
CreateOrUpdate A =
    String → A → (A → Result Failure A) → List (String × A) → List (String × A) × Result Failure A

pub record Api : Type 0 where
  -- whether calls of a kind succeed
  pub works : Call → Bool
  -- controllerutil.SetControllerReference, on the UID of the owner and the controlling owner so far
  pub set_owner : String → Option String → Result Failure (Option String)
  -- controllerutil.CreateOrUpdate, on services and on ingresses
  pub put_service : CreateOrUpdate Service
  pub put_ingress : CreateOrUpdate Ingress

-- The object that is there, or what the code passes.
abbrev pub current : {A : Type 0} → A → Option A → A
current blank none = blank
current blank (some a) = a

-- An object without an owner gets the one given, that one is kept, and whatever owner is there, the
-- one given is the owner where there is no error.
pub record IsSetOwner (set_owner : String → Option String → Result Failure (Option String))
    : Type 0 where
  pub free : (uid : String) → set_owner uid none ≡ ok (some uid)
  pub own : (uid : String) → set_owner uid (some uid) ≡ ok (some uid)
  pub sets : (uid : String) (owner o : Option String) → set_owner uid owner ≡ ok o → o ≡ some uid

-- The object is fetched and brought into shape, and created if it was not there, or updated if that
-- changed it.
pub record IsCreateOrUpdate {A : Type 0} (reads writes : Bool) (f : CreateOrUpdate A) : Type 0 where
  pub fails_unchanged :
      (name : String) (blank : A) (shape : A → Result Failure A) (objects : List (String × A))
      (e : Failure)
      → (f name blank shape objects).1 ≡ err e
      → (f name blank shape objects).0 ≡ objects
  pub stores :
      (name : String) (blank : A) (shape : A → Result Failure A) (objects : List (String × A))
      (a : A)
      → (f name blank shape objects).1 ≡ ok a
      → (reads ≡ true)
        × (shape (current blank (find name objects)) ≡ ok a)
        × ((f name blank shape objects).0 ≡ store name a objects)
  pub leaves :
      (name : String) (blank : A) (shape : A → Result Failure A) (objects : List (String × A))
      (a : A)
      → reads ≡ true
      → find name objects ≡ some a
      → shape a ≡ ok a
      → f name blank shape objects ≡ (objects, ok a)
  pub succeeds :
      (name : String) (blank : A) (shape : A → Result Failure A) (objects : List (String × A))
      (a : A)
      → reads ≡ true
      → writes ≡ true
      → shape (current blank (find name objects)) ≡ ok a
      → (f name blank shape objects).1 ≡ ok a

pub record IsApi (api : Api) : Type 0 where
  pub owners : IsSetOwner api.set_owner
  pub services : IsCreateOrUpdate (api.works get_service) (api.works write_service) api.put_service
  pub ingresses : IsCreateOrUpdate (api.works get_ingress) (api.works write_ingress) api.put_ingress
