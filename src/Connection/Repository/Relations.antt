-- ===== src/Connection/Repository/Relations.antt =====
-- Relations between the worlds before and after a call, by what is stored.
use okdp_control_plane_serve.Base.{
  String, true, false, Option, none, some, ◌≡◌, refl, ◌∙◌, arith, eq_iff,
}
use okdp_control_plane_serve.Base.Dict.{Dict}
use okdp_control_plane_serve.Base.Steps.{IsPreorder}
use okdp_control_plane_serve.Connection.Repository.{Kube, Secret, is_ours, merge}
use okdp_control_plane_serve.Connection.Repository.Assumptions.{
  SameConnections, SameSecrets, SecretsBut,
}

module _ {F W : Type 0} (k : Kube F W) where
  -- Every Secret that is not ours is left as it is.
  abbrev pub KeepsForeign : W → W → Type 0
  KeepsForeign w w' =
      (ns n : String) (s : Secret)
      → k.secret_at w ns n ≡ some s
      → is_ours s ≡ false
      → k.secret_at w' ns n ≡ some s

  pub KeepsForeign-preorder : IsPreorder KeepsForeign
  KeepsForeign-preorder = record {
    stay = λ w ns n s e o. e;
    join = λ u v w f g ns n s e o. g ns n s (f ns n s e o) o;
  }

  pub SameConnections-preorder : IsPreorder (SameConnections k)
  SameConnections-preorder = record {
    stay = λ w ns n. refl;
    join = λ u v w f g ns n. g ns n ∙ f ns n;
  }

  pub SameSecrets-preorder : IsPreorder (SameSecrets k)
  SameSecrets-preorder = record { stay = λ w ns n. refl; join = λ u v w f g ns n. g ns n ∙ f ns n }

  pub KeepsForeign-of_SameSecrets : (w w' : W) → SameSecrets k w w' → KeepsForeign w w'
  KeepsForeign-of_SameSecrets w w' same ns n s e o = same ns n ∙ e

  -- A call that writes one Secret, which was absent or ours, keeps the foreign ones.
  pub KeepsForeign-of_SecretsBut :
      (ns n : String) (w w' : W)
      → SecretsBut k ns n w w'
      → ((s : Secret) → k.secret_at w ns n ≡ some s → is_ours s ≡ true)
      → KeepsForeign w w'
  KeepsForeign-of_SecretsBut ns n w w' but ours ns' n' s e o =
      ground (arith, eq_iff ns ns', eq_iff n n', but ns' n', ours s)

  -- The world before and after a call that writes nothing.
  abbrev pub Unchanged : W → W → Type 0
  Unchanged w w' = SameConnections k w w' × SameSecrets k w w'

  pub Unchanged-preorder : IsPreorder Unchanged
  Unchanged-preorder = record {
    stay = λ w. (λ ns n. refl, λ ns n. refl);
    join = λ u v w f g. (λ ns n. g.0 ns n ∙ f.0 ns n, λ ns n. g.1 ns n ∙ f.1 ns n);
  }

  -- The Secret is ours and holds the merged entries.
  abbrev pub Holds : W → String → String → Dict String → Option Secret → Type 0
  Holds w ns n entries old =
      (s : Secret) × (k.secret_at w ns n ≡ some s)
      × (is_ours s ≡ true)
      × (s.contents ≡ elim old [ none ↦ entries | some before ↦ merge before.contents entries ])
