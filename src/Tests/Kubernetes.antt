-- ===== src/Tests/Kubernetes.antt =====
-- An API server whose calls all work, with both functions of controllerutil as they are documented.
use mathlib.Core.Logic.{ite, if_pos, if_neg}
use mcp_media.Prelude.{
  ◌≡◌, refl, sym, ap, ◌∙◌, true, Option, some, none, List, Bool-cases, inl, inr, arith,
  if◌then◌else◌,
}
use mcp_media.Names.{String, eq_refl, ◌==◌, str_eq_iff}
use mcp_media.Checked.{Result, ok, err, ok_injective}
use mcp_media.Store.{find, store, store_same}
use mcp_media.Controller.Cluster.{Failure, other_owner, Service-discrete, Ingress-discrete}
use mcp_media.Controller.Api.{Api, CreateOrUpdate, current, IsSetOwner, IsCreateOrUpdate, IsApi}

unfoldable pub own_by : String → Option String → Result Failure (Option String)
own_by uid none = ok (some uid)
own_by uid (some other) = if other == uid then ok (some other) else err other_owner

own_by-sets : (uid : String) (owner o : Option String) → own_by uid owner ≡ ok o → o ≡ some uid
unfolding own_by
own_by-sets uid none o h = sym (ok_injective h)
own_by-sets uid (some other) o h = elim (Bool-cases (other == uid)) [
  | inl mine ↦
      let e : some other ≡ o = ok_injective (rw mine at h) in
      sym e ∙ ap some ((str_eq_iff other uid).0 mine)
  | inr theirs ↦ absurd (ground arith)
]

own_by-IsSetOwner : IsSetOwner own_by
unfolding own_by
own_by-IsSetOwner = record {
  free = λ uid. refl;
  own = λ uid. rw (eq_refl uid) refl;
  sets = own_by-sets;
}

module _ {A : Type 0} (dec : Discrete A) where
  -- An object that is as it should be is not written.
  unfoldable pub put_changed :
      String
      → Option A
      → Result Failure A
      → List (String × A)
      → List (String × A) × Result Failure A
  put_changed name old (err e) objects = (objects, err e)
  put_changed name none (ok a) objects = (store name a objects, ok a)
  put_changed name (some old) (ok a) objects =
      ite (dec old a) (objects, ok a) (store name a objects, ok a)

  unfoldable pub put : CreateOrUpdate A
  put name blank shape objects =
      put_changed name (find name objects) (shape (current blank (find name objects))) objects

  -- What is returned, and what is stored then.
  put_changed_ok :
      (name : String) (old : Option A) (a : A) (objects : List (String × A))
      → find name objects ≡ old
      → put_changed name old (ok a) objects ≡ (store name a objects, ok a)
  unfolding put_changed
  put_changed_ok name none a objects found = refl
  put_changed_ok name (some b) a objects found = elim (dec b a) [
    | no differs ↦ if_neg (dec b a) differs _ _
    | yes same ↦
        if_pos (dec b a) same _ _
        ∙ ap (λ o. (o, ok a)) (sym (store_same name a objects (found ∙ ap some same)))
  ]

  put_ok :
      (name : String) (blank : A) (shape : A → Result Failure A) (objects : List (String × A))
      (a : A)
      → shape (current blank (find name objects)) ≡ ok a
      → put name blank shape objects ≡ (store name a objects, ok a)
  unfolding put
  put_ok name blank shape objects a h =
      ap (λ r. put_changed name (find name objects) r objects) h
      ∙ put_changed_ok name (find name objects) a objects refl

  put_err :
      (name : String) (blank : A) (shape : A → Result Failure A) (objects : List (String × A))
      (e : Failure)
      → shape (current blank (find name objects)) ≡ err e
      → put name blank shape objects ≡ (objects, err e)
  unfolding put
  put_err name blank shape objects e h =
      ap (λ r. put_changed name (find name objects) r objects) h ∙ unfold put_changed in refl

  put-IsCreateOrUpdate : IsCreateOrUpdate true true put
  put-IsCreateOrUpdate = record {
    fails_unchanged = λ name blank shape objects e h. failing name blank shape objects e _ refl h;
    stores = λ name blank shape objects a h. storing name blank shape objects a _ refl h;
    leaves = λ name blank shape objects a reads found h.
        put_ok name blank shape objects a (ap (λ o. shape (current blank o)) found ∙ h)
        ∙ ap (λ o. (o, ok a)) (store_same name a objects found);
    succeeds =
        λ name blank shape objects a reads writes h. rw (put_ok name blank shape objects a h) refl;
  }
    where
      failing :
          (name : String) (blank : A) (shape : A → Result Failure A) (objects : List (String × A))
          (e : Failure)
          → (r : Result Failure A) → shape (current blank (find name objects)) ≡ r
          → (put name blank shape objects).1 ≡ err e
          → (put name blank shape objects).0 ≡ objects
      failing name blank shape objects e (err e') h k =
          rw (put_err name blank shape objects e' h) refl
      failing name blank shape objects e (ok a) h k =
          absurd (ground (arith, rw (put_ok name blank shape objects a h) at k))

      storing :
          (name : String) (blank : A) (shape : A → Result Failure A) (objects : List (String × A))
          (a : A)
          → (r : Result Failure A) → shape (current blank (find name objects)) ≡ r
          → (put name blank shape objects).1 ≡ ok a
          → (true ≡ true)
            × (shape (current blank (find name objects)) ≡ ok a)
            × ((put name blank shape objects).0 ≡ store name a objects)
      storing name blank shape objects a (ok b) h k =
          let done = put_ok name blank shape objects b h in
          let same : ok b ≡ ok a = rw done at k in
          let value : b ≡ a = ok_injective same in
          (refl, h ∙ ap ok value, rw done (ap (λ x. store name x objects) value))
      storing name blank shape objects a (err e) h k =
          absurd (ground (arith, rw (put_err name blank shape objects e h) at k))

abbrev pub server : Api
server = record {
  works = λ call. true;
  set_owner = own_by;
  put_service = put Service-discrete;
  put_ingress = put Ingress-discrete;
}

pub server-IsApi : IsApi server
server-IsApi = record {
  owners = own_by-IsSetOwner;
  services = put-IsCreateOrUpdate Service-discrete;
  ingresses = put-IsCreateOrUpdate Ingress-discrete;
}
