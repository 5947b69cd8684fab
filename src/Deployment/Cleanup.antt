-- ===== src/Deployment/Cleanup.antt =====
-- What the deletion of a service leaves alone: the objects that its neighbours own by name
-- (`DeleteService` and `cleanupUserResources` of internal/service/service_service.go).
use okdp_control_plane_serve.Base.{
  String, true, false, List, [], ◌∷◌, ◌≡◌, refl, ◌≢◌, inl, inr, contains, arith, Bool-cases,
}
use okdp_control_plane_serve.Base.Go.{Result, ok, err, try}
use okdp_control_plane_serve.Base.Steps.{Result-cases, IsPreorder, try_step, bind_step}
use okdp_control_plane_serve.Deployment.Model.{Release}
use okdp_control_plane_serve.Deployment.Names.{owns_by_name}
use okdp_control_plane_serve.Deployment.Ownership.{owns_by_name_unique}
use okdp_control_plane_serve.Deployment.Cluster as Cluster
use okdp_control_plane_serve.Deployment.Cluster.{
  ServiceError, Kind, pods, persistent_volume_claims, Cluster, converted,
}
use okdp_control_plane_serve.Deployment.Service.{
  Services, neighbours, delete_owned, cleanup_listed, cleanup_kind, cleanup_with,
  cleanup_user_resources, release_name_of, delete_service,
}

-- What is relied on of the API server and the provisioner. `Has w kind namespace name` says that the
-- object is there in `w`: lists, the deletion of a Release and the provisioner leave the objects, and the
-- deletion of an object leaves those of another kind, namespace or name.
pub record ObjectLaws {W : Type 0} (s : Services W) (Has : W → Kind → String → String → Type 0)
    : Type 0 where
  pub list_objects :
      (k : Kind) (ns : String) (w : W) (k' : Kind) (ns' n : String)
      → Has w k' ns' n
      → Has (s.cluster.list_objects k ns w).1 k' ns' n
  pub list_releases :
      (ns project : String) (w : W) (k : Kind) (ns' n : String)
      → Has w k ns' n
      → Has (s.cluster.list_releases ns project w).1 k ns' n
  pub delete_release :
      (ns name : String) (w : W) (k : Kind) (ns' n : String)
      → Has w k ns' n
      → Has (s.cluster.delete_release ns name w).1 k ns' n
  pub delete_client :
      (name : String) (w : W) (k : Kind) (ns n : String)
      → Has w k ns n
      → Has (s.delete_client name w).1 k ns n
  pub delete_object :
      (k : Kind) (ns o : String) (w : W) (k' : Kind) (ns' n : String)
      → o ≢ n
      → Has w k' ns' n
      → Has (s.cluster.delete_object k ns o w).1 k' ns' n

module _ {W : Type 0} (s : Services W) (Has : W → Kind → String → String → Type 0)
    (laws : ObjectLaws s Has) where
  -- Every object whose name is in `Safe` is kept.
  abbrev pub Keeps : (String → Type 0) → W → W → Type 0
  Keeps Safe w w' = (k : Kind) (ns n : String) → Safe n → Has w k ns n → Has w' k ns n

  Keeps-preorder : (Safe : String → Type 0) → IsPreorder (Keeps Safe)
  Keeps-preorder Safe = record {
    stay = λ w k ns n safe h. h;
    join = λ u v w f g k ns n safe h. g k ns n safe (f k ns n safe h);
  }

  -- A name that the deleted release does not own beside its neighbours.
  abbrev NotOwned : String → List String → String → Type 0
  NotOwned release_name others n = owns_by_name n release_name others ≡ false

  delete_owned-Keeps :
      (kind : Kind) (ns release_name : String) (others os : List String) (w : W)
      → Keeps (NotOwned release_name others) w (delete_owned s kind ns release_name others os w).1
  unfolding delete_owned
  delete_owned-Keeps kind ns r others [] w = λ k ns' n safe h. h
  delete_owned-Keeps kind ns r others (o ∷ os) w = elim (Bool-cases (owns_by_name o r others)) [
    | inr not_mine ↦ rw (not_mine, delete_owned) (delete_owned-Keeps kind ns r others os w)
    | inl mine ↦
        rw (mine, delete_owned)
          (try_step (Keeps (NotOwned r others)) (Keeps-preorder (NotOwned r others))
            (s.cluster.delete_object kind ns o) (λ _. delete_owned s kind ns r others os) w
            (λ k ns' n safe h. laws.delete_object kind ns o w k ns' n (differs mine safe) h)
            (λ x e. delete_owned-Keeps kind ns r others os (s.cluster.delete_object kind ns o w).1))
  ]
    where
      differs :
          {n : String} → owns_by_name o r others ≡ true → owns_by_name n r others ≡ false → o ≢ n
      differs mine safe same = ground arith

  cleanup_kind-Keeps :
      (kind : Kind) (ns release_name : String) (others : List String) (w : W)
      → Keeps (NotOwned release_name others) w (cleanup_kind s kind ns release_name others w).1
  unfolding cleanup_kind cleanup_listed
  cleanup_kind-Keeps kind ns r others w =
      try_step (Keeps (NotOwned r others)) (Keeps-preorder (NotOwned r others))
        (s.cluster.list_objects kind ns) (cleanup_listed s kind ns r others) w
        (λ k ns' n safe h. laws.list_objects kind ns w k ns' n h)
        (λ x e. listed x (s.cluster.list_objects kind ns w).1)
    where
      listed :
          (x : Result ServiceError (List String)) (v : W)
          → Keeps (NotOwned r others) v (cleanup_listed s kind ns r others x v).1
      listed (ok os) v = delete_owned-Keeps kind ns r others os v
      listed (err e) v = λ k ns' n safe h. h

  cleanup_with-Keeps :
      (ns release_name : String) (survivors : List Release) (w : W)
      → Keeps
          (NotOwned release_name (neighbours release_name survivors))
          w
          (cleanup_with s ns release_name (ok survivors) w).1
  unfolding cleanup_with
  cleanup_with-Keeps ns r survivors w =
      let others = neighbours r survivors in
      bind_step (Keeps (NotOwned r others)) (Keeps-preorder (NotOwned r others))
        (cleanup_kind s pods ns r others) (λ _. cleanup_kind s persistent_volume_claims ns r others)
        w (cleanup_kind-Keeps pods ns r others w)
        (λ u e.
          cleanup_kind-Keeps persistent_volume_claims ns r others
            (cleanup_kind s pods ns r others w).1)

  -- What is safe, by what the listing of the surviving releases answered: everything where it failed.
  abbrev pub SafeBy : String → Result ServiceError (List Release) → String → Type 0
  SafeBy release_name (err e) n = Unit
  SafeBy release_name (ok survivors) n = NotOwned release_name (neighbours release_name survivors) n

  -- The cleanup of a deleted release keeps every object that the release does not own beside the
  -- releases that were listed, and every object where they could not be listed.
  pub cleanup_user_resources-Keeps :
      (ns release_name : String) (w : W)
      → Keeps
          (SafeBy release_name (Cluster.list s.cluster ns ns w).0)
          w
          (cleanup_user_resources s ns release_name w).1
  unfolding cleanup_user_resources Cluster.list cleanup_with
  cleanup_user_resources-Keeps ns r w = elim (Result-cases (s.cluster.list_releases ns ns w).0) [
    | inl (ss, listed) ↦
        rw (listed, cleanup_user_resources, Cluster.list)
          (after (converted ss) (laws.list_releases ns ns w))
    | inr (e, failed) ↦
        rw (failed, cleanup_user_resources, Cluster.list)
          (λ k ns' n safe h. laws.list_releases ns ns w k ns' n h)
  ]
    where
      after :
          {v : W} (survivors : List Release)
          → ((k : Kind) (ns' n : String) → Has w k ns' n → Has v k ns' n)
          → Keeps (NotOwned r (neighbours r survivors)) w (cleanup_with s ns r (ok survivors) v).1
      after {v} survivors first k ns' n safe h =
          cleanup_with-Keeps ns r survivors v k ns' n safe (first k ns' n h)

  cleanup-Keeps_neighbour :
      (ns release_name b : String) (others_of_b : List String) (w : W)
      → ((survivors : List Release)
          → (Cluster.list s.cluster ns ns w).0 ≡ ok survivors
          → contains (neighbours release_name survivors) b ≡ true)
      → release_name ≢ b
      → contains others_of_b release_name ≡ true
      → Keeps
          (λ n. owns_by_name n b others_of_b ≡ true)
          w
          (cleanup_user_resources s ns release_name w).1
  cleanup-Keeps_neighbour ns r b others_of_b w sees ne known k ns' n owned h =
      cleanup_user_resources-Keeps ns r w k ns' n (safe (Cluster.list s.cluster ns ns w).0 sees) h
    where
      safe :
          (x : Result ServiceError (List Release))
          → ((survivors : List Release)
              → x ≡ ok survivors
              → contains (neighbours r survivors) b ≡ true)
          → SafeBy r x n
      safe (err e) sees = tt
      safe (ok survivors) sees =
          owns_by_name_unique n r b (neighbours r survivors) others_of_b (sees survivors refl) known
            ne owned

  -- The world in which the releases that survive a deletion are listed: the Release and its OAuth2
  -- client were asked to go, and nothing was cleaned up yet.
  abbrev pub before_cleanup : String → String → W → W
  before_cleanup project release_name w =
      (s.delete_client release_name (Cluster.delete s.cluster project release_name w).1).1

  -- Deleting a service takes no object of a neighbour: an object that another release owns by name,
  -- beside the deleted one, is there afterwards, whatever the calls answered. If the listing of the
  -- releases that `DeleteService` makes before the cleanup succeeds, the other release is in it.
  pub delete_service-Keeps_neighbour :
      (project name b : String) (others_of_b : List String) (w : W)
      → ((survivors : List Release)
          → (Cluster.list s.cluster project project
              (before_cleanup project (release_name_of project name) w)).0
            ≡ ok survivors
          → contains (neighbours (release_name_of project name) survivors) b ≡ true)
      → release_name_of project name ≢ b
      → contains others_of_b (release_name_of project name) ≡ true
      → Keeps (λ n. owns_by_name n b others_of_b ≡ true) w (delete_service s project name w).1
  unfolding delete_service Cluster.delete
  delete_service-Keeps_neighbour project name b others_of_b w sees ne known =
      let r = release_name_of project name in
      let Safe : String → Type 0 = λ n. owns_by_name n b others_of_b ≡ true in
      let tidy = λ (x : Result ServiceError (Unit {0})). cleanup_user_resources s project r in
      bind_step (Keeps Safe) (Keeps-preorder Safe) (Cluster.delete s.cluster project r)
        (λ _. try (s.delete_client r) tidy) w
        (λ k ns n safe h. laws.delete_release project r w k ns n h)
        (λ u e.
          let v = (Cluster.delete s.cluster project r w).1 in
          try_step (Keeps Safe) (Keeps-preorder Safe) (s.delete_client r) tidy v
            (λ k ns n safe h. laws.delete_client r v k ns n h)
            (λ x d.
              cleanup-Keeps_neighbour project r b others_of_b (s.delete_client r v).1 sees ne
                known))
