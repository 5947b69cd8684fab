-- ===== src/Deployment/Health.antt =====
-- When its pods make a service unhealthy (`checkPodHealth` of internal/service/service_service.go).
use Prim.Native.Char.{code}
use Prim.Native.String.{[], ◌∷◌, ◌++◌}
use text.Mathlib.TextEquality.{Char-path}
use text.Mathlib.TextLemmas.{cons-append, nil-append}
use okdp_control_plane_serve.Base.{
  String, true, false, Option, none, some, List, ◌≡◌, refl, sym, ap, ◌∙◌, ◌≢◌, ◌⊎◌, ◌↔◌, inl, inr,
  ◌==◌, contains, if◌then◌else◌, arith, Bool-cases, Option-cases, eq_iff, true_ne_false, nat_eq,
  eq_of_test, test_false_ne,
}
use okdp_control_plane_serve.Base.Go.{Result, ok, err}
use okdp_control_plane_serve.Base.Json.{Json, Fields, object, get}
use okdp_control_plane_serve.Platform.Context.{Unstructured, ContextError}
use okdp_control_plane_serve.Deployment.Names.{has_prefix, matches_instance, is_infra_sidecar}
use okdp_control_plane_serve.Deployment.Workloads.{
  Pod, string_of, reason_in, is_failed_wait, is_failed_end, is_sidecar, is_failing, any_failing,
  container_statuses, check_pod_health,
}
use okdp_control_plane_serve.Deployment.Ownership.{nat_eq_path}
use okdp_control_plane_serve.Deployment.Exposure.{Any}

eq_sym : (a b : String) → (a == b) ≡ (b == a)
eq_sym a b = ground (arith, eq_iff a b, eq_iff b a)

-- A text that starts with another.
abbrev pub Begins : String → String → Type 0
Begins p s = (rest : String) × (s ≡ p ++ rest)

has_prefix_up : (p rest : String) → has_prefix p (p ++ rest) ≡ true
unfolding has_prefix
has_prefix_up [] rest = refl
has_prefix_up (c ∷ p) rest = rw (cons-append c p rest) (ground (arith, has_prefix_up p rest))

has_prefix_down : (p s : String) → has_prefix p s ≡ true → Begins p s
unfolding has_prefix
has_prefix_down [] s h = (s, sym (nil-append s))
has_prefix_down (c ∷ p) [] h = absurd (true_ne_false (sym h))
has_prefix_down (c ∷ p) (d ∷ s) h = elim (Bool-cases (nat_eq (code c) (code d))) [
  | inr other ↦ absurd (true_ne_false (sym (rw other at h)))
  | inl same ↦
      let (rest, e) = has_prefix_down p s (rw same at h) in
      (
        rest,
        ap (λ x. x ∷ s) (sym (Char-path c d (nat_eq_path _ _ same)))
            ∙ ap (λ l. c ∷ l) e
            ∙ sym (cons-append c p rest),
      )
]

has_prefix_iff : (p s : String) → (has_prefix p s ≡ true) ↔ Begins p s
has_prefix_iff p s = (has_prefix_down p s, λ b. rw b.1 (has_prefix_up p b.0))

-- The pod of a Helm release: it has its name, or one that starts with the name and a dash.
abbrev pub IsPodOf : String → String → Type 0
IsPodOf pod release = (pod ≡ release) ⊎ Begins (release ++ "-") pod

matches_instance_iff :
    (pod : String) (releases : List String)
    → (matches_instance pod releases ≡ true) ↔ Any (IsPodOf pod) releases
unfolding matches_instance
matches_instance_iff pod List.[] = (λ h. true_ne_false (sym h), λ h. absurd h)
matches_instance_iff pod (List.◌∷◌ n ns) =
    let (down, up) = matches_instance_iff pod ns in
    let (begins, has) = has_prefix_iff (n ++ "-") pod in
    elim (Bool-cases (pod == n)) [
      | inl it ↦ (λ h. inl (inl (eq_of_test pod n it)), λ h. rw it refl)
      | inr other ↦ elim (Bool-cases (has_prefix (n ++ "-") pod)) [
        | inl longer ↦ (λ h. inl (inr (begins longer)), λ h. rw (other, longer) refl)
        | inr apart ↦ (
          λ h. inr (down (rw (other, apart) at h)),
          λ h. elim h [
            | inl (inl same) ↦ absurd (test_false_ne pod n other same)
            | inl (inr longer) ↦ absurd (true_ne_false (sym (has longer) ∙ apart))
            | inr later ↦ rw (other, apart) (up later)
          ],
        )
      ]
    ]

is_infra_sidecar_iff :
    (name : String) (prefixes : List String)
    → (is_infra_sidecar prefixes name ≡ true) ↔ Any (λ p. Begins p name) prefixes
unfolding is_infra_sidecar
is_infra_sidecar_iff name List.[] = (λ h. true_ne_false (sym h), λ h. absurd h)
is_infra_sidecar_iff name (List.◌∷◌ p ps) =
    let (down, up) = is_infra_sidecar_iff name ps in
    let (begins, has) = has_prefix_iff p name in
    elim (Bool-cases (has_prefix p name)) [
      | inl it ↦ (λ h. inl (begins it), λ h. rw it refl)
      | inr other ↦ (
        λ h. inr (down (rw other at h)),
        λ h. elim h [
          | inl it ↦ absurd (true_ne_false (sym (has it) ∙ other))
          | inr later ↦ rw other (up later)
        ],
      )
    ]

module _ (k : Unstructured) (prefixes : List String) where
  -- The name of the container starts with none of the prefixes, or is missing.
  abbrev pub IsNoSidecar : Fields → Type 0
  IsNoSidecar cs =
      (name : String) → string_of (get "name" cs) ≡ some name → ¬ Any (λ p. Begins p name) prefixes

  -- The container is in the state of that name, for the reason.
  abbrev pub StateFor : Fields → String → String → Type 0
  StateFor cs state reason =
      (m : Fields) × (k.nested_map cs (List.◌∷◌ "state" (List.◌∷◌ state List.[])) ≡ ok (some m))
      × (string_of (get "reason" m) ≡ some reason)

  -- The reasons to wait that are failures.
  abbrev pub failed_waits : List String
  failed_waits =
      List.◌∷◌ "CrashLoopBackOff"
        (List.◌∷◌ "Error" (List.◌∷◌ "ImagePullBackOff" (List.◌∷◌ "ErrImagePull" List.[])))

  -- The status of a container that is failing: it is no sidecar and not ready, and it waits for a reason
  -- that is a failure, or it ended with an error.
  abbrev pub Failing : Json → Type 0
  Failing status =
      (cs : Fields) × (status ≡ object cs)
      × IsNoSidecar cs
      × (k.nested_bool cs (List.◌∷◌ "ready" List.[]) ≡ false)
      × (((reason : String) × StateFor cs "waiting" reason × (contains failed_waits reason ≡ true))
          ⊎ StateFor cs "terminated" "Error")

  reason_found :
      (r : Result ContextError (Option Fields)) (reason : String)
      → reason_in k prefixes r ≡ some reason
      → (m : Fields) × (r ≡ ok (some m)) × (string_of (get "reason" m) ≡ some reason)
  unfolding reason_in
  reason_found (ok (some m)) reason h = (m, refl, h)
  reason_found (ok none) reason h = absurd (ground arith)
  reason_found (err e) reason h = absurd (ground arith)

  state_reason :
      (cs : Fields) (state reason : String)
      → StateFor cs state reason
      → reason_in k prefixes (k.nested_map cs (List.◌∷◌ "state" (List.◌∷◌ state List.[])))
        ≡ some reason
  unfolding reason_in
  state_reason cs state reason (m, there, e) = rw there e

  failed_wait_iff :
      (reason : String)
      → (is_failed_wait k prefixes (some reason) ≡ true) ↔ (contains failed_waits reason ≡ true)
  unfolding is_failed_wait
  failed_wait_iff reason = (
    λ h. ground (
      arith,
      h,
      eq_sym reason "CrashLoopBackOff",
      eq_sym reason "Error",
      eq_sym reason "ImagePullBackOff",
      eq_sym reason "ErrImagePull",
    ),
    λ h. ground (
      arith,
      h,
      eq_sym reason "CrashLoopBackOff",
      eq_sym reason "Error",
      eq_sym reason "ImagePullBackOff",
      eq_sym reason "ErrImagePull",
    ),
  )

  wait_found :
      (o : Option String)
      → is_failed_wait k prefixes o ≡ true
      → (reason : String) × (o ≡ some reason) × (contains failed_waits reason ≡ true)
  unfolding is_failed_wait
  wait_found none h = absurd (true_ne_false (sym h))
  wait_found (some reason) h = (reason, refl, (failed_wait_iff reason).0 h)

  end_found : (o : Option String) → is_failed_end k prefixes o ≡ true → o ≡ some "Error"
  unfolding is_failed_end
  end_found none h = absurd (true_ne_false (sym h))
  end_found (some reason) h = ap (λ x. some x) (eq_of_test reason "Error" h)

  is_sidecar-IsNoSidecar :
      (cs : Fields) → (is_sidecar k prefixes (string_of (get "name" cs)) ≡ false) ↔ IsNoSidecar cs
  unfolding is_sidecar
  is_sidecar-IsNoSidecar cs = elim (Option-cases (string_of (get "name" cs))) [
    | inl unnamed ↦ (λ h name e begins. absurd (ground arith), λ h. rw (unnamed, is_sidecar) refl)
    | inr (n, named) ↦
        let (down, up) = is_infra_sidecar_iff n prefixes in
        (
          λ h name e begins.
              let same : n ≡ name = ground arith in
              let own : Any (λ p. Begins p n) prefixes = rw same begins in
              let kept : is_infra_sidecar prefixes n ≡ false = rw (named, is_sidecar) at h in
              true_ne_false (sym (up own) ∙ kept),
          λ h. elim (Bool-cases (is_infra_sidecar prefixes n)) [
            | inl sidecar ↦ absurd (h n named (down sidecar))
            | inr it ↦ rw (named, is_sidecar) it
          ],
        )
  ]

  is_failing_down : (status : Json) → is_failing k prefixes status ≡ true → Failing status
  unfolding is_failing
  is_failing_down (object cs) h =
      elim (Bool-cases (is_sidecar k prefixes (string_of (get "name" cs)))) [
        | inl sidecar ↦ absurd (true_ne_false (sym (rw sidecar at h)))
        | inr main ↦ elim (Bool-cases (k.nested_bool cs (List.◌∷◌ "ready" List.[]))) [
          | inl ready ↦ absurd (true_ne_false (sym (rw (main, ready) at h)))
          | inr unready ↦ (
            cs,
            refl,
            (is_sidecar-IsNoSidecar cs).0 main,
            unready,
            why cs (rw (main, unready) at h),
          )
        ]
      ]
    where
      why :
          (cs : Fields)
          → (if is_failed_wait k prefixes (
                reason_in k prefixes
                  (k.nested_map cs (List.◌∷◌ "state" (List.◌∷◌ "waiting" List.[]))))
              then true
              else is_failed_end k prefixes (
                  reason_in k prefixes
                    (k.nested_map cs (List.◌∷◌ "state" (List.◌∷◌ "terminated" List.[])))))
            ≡ true
          → ((reason : String) × StateFor cs "waiting" reason
              × (contains failed_waits reason ≡ true))
            ⊎ StateFor cs "terminated" "Error"
      why cs h =
          let waits = k.nested_map cs (List.◌∷◌ "state" (List.◌∷◌ "waiting" List.[])) in
          let ends = k.nested_map cs (List.◌∷◌ "state" (List.◌∷◌ "terminated" List.[])) in
          elim (Bool-cases (is_failed_wait k prefixes (reason_in k prefixes waits))) [
            | inl it ↦
                let (reason, e, listed) = wait_found (reason_in k prefixes waits) it in
                inl (reason, reason_found waits reason e, listed)
            | inr other ↦
                let e = end_found (reason_in k prefixes ends) (rw other at h) in
                inr (reason_found ends "Error" e)
          ]
  is_failing_down _ h = absurd (true_ne_false (sym h))

  is_failing_up : (status : Json) → Failing status → is_failing k prefixes status ≡ true
  unfolding is_failing is_failed_end
  is_failing_up status (cs, it, main, unready, inl (reason, waits, listed)) =
      rw
        (
          it,
          (is_sidecar-IsNoSidecar cs).1 main,
          unready,
          state_reason cs "waiting" reason waits,
          (failed_wait_iff reason).1 listed,
        )
        refl
  is_failing_up status (cs, it, main, unready, inr ends) =
      rw
        (it, (is_sidecar-IsNoSidecar cs).1 main, unready, state_reason cs "terminated" "Error" ends)
        (ground arith)

  any_failing_iff : (css : List Json) → (any_failing k prefixes css ≡ true) ↔ Any Failing css
  unfolding any_failing
  any_failing_iff List.[] = (λ h. true_ne_false (sym h), λ h. absurd h)
  any_failing_iff (List.◌∷◌ cs css) =
      let (down, up) = any_failing_iff css in
      elim (Bool-cases (is_failing k prefixes cs)) [
        | inl fails ↦ (λ h. inl (is_failing_down cs fails), λ h. rw fails refl)
        | inr fine ↦ (
          λ h. inr (down (rw fine at h)),
          λ h. elim h [
            | inl fails ↦ absurd (true_ne_false (sym (is_failing_up cs fails) ∙ fine))
            | inr later ↦ rw fine (up later)
          ],
        )
      ]

  -- A pod of one of the Helm releases has a container that is failing.
  abbrev pub Unhealthy : List String → Pod → Type 0
  Unhealthy releases p =
      Any (IsPodOf p.name) releases × Any Failing (container_statuses k prefixes p)

  -- A service whose status was no error is shown with an error just where a pod that is counted as one
  -- of its Helm releases' has a failing container. A pod counts that has the name of one of the releases
  -- or a longer name that goes on with a dash, and so do the pods of another release with such a name.
  pub check_pod_health_iff :
      (releases : List String) (current : String) (pods : List Pod)
      → current ≢ "Error"
      → (check_pod_health k prefixes pods releases current ≡ "Error")
        ↔ Any (Unhealthy releases) pods
  unfolding check_pod_health
  check_pod_health_iff releases current List.[] ne = (λ h. ne h, λ h. absurd h)
  check_pod_health_iff releases current (List.◌∷◌ p ps) ne =
      let (down, up) = check_pod_health_iff releases current ps ne in
      let (sick_down, sick_up) = any_failing_iff (container_statuses k prefixes p) in
      let (mine_down, mine_up) = matches_instance_iff p.name releases in
      elim (Bool-cases (matches_instance p.name releases)) [
        | inr foreign ↦ (
          λ h. inr (down (rw foreign at h)),
          λ h. elim h [
            | inl (mine, sick) ↦ absurd (true_ne_false (sym (mine_up mine) ∙ foreign))
            | inr later ↦ rw foreign (up later)
          ],
        )
        | inl mine ↦ elim (Bool-cases (any_failing k prefixes (container_statuses k prefixes p))) [
          | inl sick ↦ (λ h. inl (mine_down mine, sick_down sick), λ h. rw (mine, sick) refl)
          | inr well ↦ (
            λ h. inr (down (rw (mine, well) at h)),
            λ h. elim h [
              | inl (_, sick) ↦ absurd (true_ne_false (sym (sick_up sick) ∙ well))
              | inr later ↦ rw (mine, well) (up later)
            ],
          )
        ]
      ]
