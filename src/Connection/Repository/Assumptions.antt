-- ===== src/Connection/Repository/Assumptions.antt =====
-- What the code relies on of the Kubernetes API, as hypotheses on `Kube`. Nobody else writes between
-- the calls of one request, objects carry no finalizer, and a request that is refused changes
-- nothing. A read changes nothing; a write changes the object that it names and no other.
use okdp_control_plane_serve.Base.{String, none, some, ◌≡◌, ◌==◌, if◌then◌else◌, ◌&&◌}
use okdp_control_plane_serve.Base.Go.{ok, err}
use okdp_control_plane_serve.Connection.Repository.{
  Kube, KubeError, not_found, Connection, Secret, Item,
}

module _ {F W : Type 0} (k : Kube F W) where
  abbrev pub SameConnections : W → W → Type 0
  SameConnections w w' = (ns n : String) → k.connection_at w' ns n ≡ k.connection_at w ns n

  abbrev pub SameSecrets : W → W → Type 0
  SameSecrets w w' = (ns n : String) → k.secret_at w' ns n ≡ k.secret_at w ns n

  -- Only the connection `n` of `ns` may differ.
  abbrev pub ConnectionsBut : String → String → W → W → Type 0
  ConnectionsBut ns n w w' =
      (ns' n' : String)
      → k.connection_at w' ns' n'
        ≡ (if (ns == ns') && (n == n') then k.connection_at w' ns n else k.connection_at w ns' n')

  -- Only the Secret `n` of `ns` may differ.
  abbrev pub SecretsBut : String → String → W → W → Type 0
  SecretsBut ns n w w' =
      (ns' n' : String)
      → k.secret_at w' ns' n'
        ≡ (if (ns == ns') && (n == n') then k.secret_at w' ns n else k.secret_at w ns' n')

  -- The stored connection: the server keeps what the request says, and may fill in the rest.
  abbrev pub Stores : W → String → Connection F → Type 0
  Stores w ns c =
      (s : Connection F) × (k.connection_at w ns c.name ≡ some s)
      × (s.name ≡ c.name)
      × (s.spec ≡ c.spec)
      × (s.labels ≡ c.labels)
      × (s.annotations ≡ c.annotations)

  abbrev pub StoresSecret : W → String → Secret → Type 0
  StoresSecret w ns c =
      (s : Secret) × (k.secret_at w ns c.name ≡ some s)
      × (s.labels ≡ c.labels)
      × (s.contents ≡ c.contents)

  pub record KubeLaws : Type 0 where
    pub list_reads :
        (ns : String) (w : W)
        → SameConnections w (k.list_connections ns w).1 × SameSecrets w (k.list_connections ns w).1
    pub get_reads :
        (ns n : String) (w : W)
        → SameConnections w (k.get_connection ns n w).1 × SameSecrets w (k.get_connection ns n w).1
    pub get_finds :
        (ns n : String) (w : W) (item : Item F) (c : Connection F)
        → (k.get_connection ns n w).0 ≡ ok item
        → item.object ≡ some c
        → (k.connection_at w ns n ≡ some c) × (c.name ≡ n)
    pub get_misses :
        (ns n : String) (w : W)
        → (k.get_connection ns n w).0 ≡ err not_found
        → k.connection_at w ns n ≡ none
    pub create_writes :
        (ns : String) (c : Connection F) (w : W)
        → ConnectionsBut ns c.name w (k.create_connection ns c w).1
          × SameSecrets w (k.create_connection ns c w).1
    pub create_stores :
        (ns : String) (c : Connection F) (w : W)
        → (k.create_connection ns c w).0 ≡ ok tt
        → Stores (k.create_connection ns c w).1 ns c
    pub create_refused :
        (ns : String) (c : Connection F) (w : W) (e : KubeError)
        → (k.create_connection ns c w).0 ≡ err e
        → SameConnections w (k.create_connection ns c w).1
    pub update_writes :
        (ns : String) (c : Connection F) (w : W)
        → ConnectionsBut ns c.name w (k.update_connection ns c w).1
          × SameSecrets w (k.update_connection ns c w).1
    pub update_stores :
        (ns : String) (c : Connection F) (w : W)
        → (k.update_connection ns c w).0 ≡ ok tt
        → Stores (k.update_connection ns c w).1 ns c
    pub update_refused :
        (ns : String) (c : Connection F) (w : W) (e : KubeError)
        → (k.update_connection ns c w).0 ≡ err e
        → SameConnections w (k.update_connection ns c w).1
    pub delete_writes :
        (ns n : String) (w : W)
        → ConnectionsBut ns n w (k.delete_connection ns n w).1
          × SameSecrets w (k.delete_connection ns n w).1
    pub delete_removes :
        (ns n : String) (w : W)
        → (k.delete_connection ns n w).0 ≡ ok tt
        → k.connection_at (k.delete_connection ns n w).1 ns n ≡ none
    pub delete_refused :
        (ns n : String) (w : W) (e : KubeError)
        → (k.delete_connection ns n w).0 ≡ err e
        → SameConnections w (k.delete_connection ns n w).1
    pub get_secret_reads :
        (ns n : String) (w : W)
        → SameConnections w (k.get_secret ns n w).1 × SameSecrets w (k.get_secret ns n w).1
    pub get_secret_finds :
        (ns n : String) (w : W) (s : Secret)
        → (k.get_secret ns n w).0 ≡ ok s
        → k.secret_at w ns n ≡ some s
    pub get_secret_misses :
        (ns n : String) (w : W)
        → (k.get_secret ns n w).0 ≡ err not_found
        → k.secret_at w ns n ≡ none
    pub create_secret_writes :
        (ns : String) (s : Secret) (w : W)
        → SameConnections w (k.create_secret ns s w).1
          × SecretsBut ns s.name w (k.create_secret ns s w).1
    pub create_secret_stores :
        (ns : String) (s : Secret) (w : W)
        → (k.create_secret ns s w).0 ≡ ok tt
        → StoresSecret (k.create_secret ns s w).1 ns s
    pub create_secret_refused :
        (ns : String) (s : Secret) (w : W) (e : KubeError)
        → (k.create_secret ns s w).0 ≡ err e
        → SameSecrets w (k.create_secret ns s w).1
    pub update_secret_writes :
        (ns : String) (s : Secret) (w : W)
        → SameConnections w (k.update_secret ns s w).1
          × SecretsBut ns s.name w (k.update_secret ns s w).1
    pub update_secret_stores :
        (ns : String) (s : Secret) (w : W)
        → (k.update_secret ns s w).0 ≡ ok tt
        → StoresSecret (k.update_secret ns s w).1 ns s
    pub update_secret_refused :
        (ns : String) (s : Secret) (w : W) (e : KubeError)
        → (k.update_secret ns s w).0 ≡ err e
        → SameSecrets w (k.update_secret ns s w).1
    pub delete_secret_writes :
        (ns n : String) (w : W)
        → SameConnections w (k.delete_secret ns n w).1
          × SecretsBut ns n w (k.delete_secret ns n w).1
    pub delete_secret_removes :
        (ns n : String) (w : W)
        → (k.delete_secret ns n w).0 ≡ ok tt
        → k.secret_at (k.delete_secret ns n w).1 ns n ≡ none
    pub delete_secret_misses :
        (ns n : String) (w : W)
        → (k.delete_secret ns n w).0 ≡ err not_found
        → k.secret_at (k.delete_secret ns n w).1 ns n ≡ none
    pub delete_secret_refused :
        (ns n : String) (w : W) (e : KubeError)
        → (k.delete_secret ns n w).0 ≡ err e
        → SameSecrets w (k.delete_secret ns n w).1
