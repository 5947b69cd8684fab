-- ===== src/Deployment/Names.antt =====
-- What names say of the objects of a release, and which hosts a service may be reached at:
-- internal/service/service_service.go and internal/service/insecure_registries.go.
use Prim.Native.Nat.{ℕ, ◌+◌}
use Prim.Native.Char.{code}
use Prim.Native.String.{[], ◌∷◌, ◌++◌}
use okdp_control_plane_serve.Base.{
  String, Bool, true, false, none, some, List, ◌==◌, ◌&&◌, ◌||◌, not, if◌then◌else◌, ltb, leb,
  nat_eq,
}
use okdp_control_plane_serve.Base.Text.{cut, trim_space}
use okdp_control_plane_serve.Deployment.Model.{ServiceInstance}

-- `strings.HasPrefix`
unfoldable pub has_prefix : String → String → Bool
has_prefix [] s = true
has_prefix (c ∷ p) [] = false
has_prefix (c ∷ p) (d ∷ s) = if nat_eq (code c) (code d) then has_prefix p s else false

-- The bytes that a character takes.
unfoldable pub char_bytes : ℕ → ℕ
char_bytes c = if ltb c 128 then 1 else if ltb c 2048 then 2 else if ltb c 65536 then 3 else 4

-- `len` of a string
unfoldable pub byte_length : String → ℕ
unfolding char_bytes
byte_length [] = 0
byte_length (c ∷ s) = char_bytes (code c) + byte_length s

-- `len(s) > len(p) && s[:len(p)] == p`: a prefix with something after it.
unfoldable pub extends_prefix : String → String → Bool
unfolding has_prefix
extends_prefix p s = has_prefix p s && not (p == s)

-- The loop of `ownsByName`: whether one of the other releases reaches further into the name.
unfoldable pub claimed_by_other : String → String → List String → Bool
unfolding byte_length extends_prefix
claimed_by_other object_name release_name List.[] = false
claimed_by_other object_name release_name (List.◌∷◌ other others) =
    let rest = claimed_by_other object_name release_name others in
    if leb (byte_length other) (byte_length release_name)
    then rest
    else if object_name == other
    then true
    else if extends_prefix (other ++ "-") object_name
    then true
    else rest

-- `ownsByName`
unfoldable pub owns_by_name : String → String → List String → Bool
unfolding extends_prefix claimed_by_other
owns_by_name object_name release_name others =
    extends_prefix (release_name ++ "-") object_name
    && not (claimed_by_other object_name release_name others)

-- `matchesInstance`
unfoldable pub matches_instance : String → List String → Bool
unfolding has_prefix
matches_instance name List.[] = false
matches_instance name (List.◌∷◌ n ns) =
    name == n || has_prefix (n ++ "-") name || matches_instance name ns

-- `isInfraSidecar`
unfoldable pub is_infra_sidecar : List String → String → Bool
unfolding has_prefix
is_infra_sidecar List.[] name = false
is_infra_sidecar (List.◌∷◌ p ps) name = has_prefix p name || is_infra_sidecar ps name

-- The loop of `insecureOCIHost`.
unfoldable pub lists_host : String → List String → Bool
unfolding trim_space
lists_host host List.[] = false
lists_host host (List.◌∷◌ candidate candidates) =
    trim_space candidate == host || lists_host host candidates

-- The registry host of a repository: what stands before the first `/`.
unfoldable pub registry_host : String → String
unfolding cut
registry_host repository = elim (cut 47 repository) [ none ↦ repository | some (host, path) ↦ host ]

-- `insecureOCIHost`
unfoldable pub insecure_oci_host : String → List String → Bool
unfolding registry_host lists_host
insecure_oci_host repository insecure_hosts = lists_host (registry_host repository) insecure_hosts

-- The hosts of the roles that have a conventional one (`roleHostConventions`), before others.
unfoldable pub role_hosts : String → String → List String → List String → List String
role_hosts namespace suffix List.[] others = others
role_hosts namespace suffix (List.◌∷◌ role roles) others =
    let rest = role_hosts namespace suffix roles others in
    if role == "storage"
    then List.◌∷◌ ("storage-" ++ namespace ++ "." ++ suffix) rest
    else if role == "spark"
    then List.◌∷◌ ("spark-web-proxy-" ++ namespace ++ "." ++ suffix) rest
    else rest

-- The two hosts that packages publish under a name.
unfoldable pub named_hosts : String → String → String → List String → List String
named_hosts name namespace suffix rest =
    List.◌∷◌ (name ++ "-console-" ++ namespace ++ "." ++ suffix)
      (List.◌∷◌ (name ++ "-" ++ namespace ++ "." ++ suffix) rest)

-- `candidateHosts`
unfoldable pub candidate_hosts : ServiceInstance → String → List String
unfolding role_hosts named_hosts
candidate_hosts i suffix =
    let by_service =
      if i.service == ""
      then List.[]
      else named_hosts i.service i.target_namespace suffix List.[] in
    let by_name =
      if not (i.name == "") && not (i.name == i.service)
      then named_hosts i.name i.target_namespace suffix by_service
      else by_service in
    List.◌∷◌ (i.release_name ++ "." ++ suffix)
      (role_hosts i.target_namespace suffix i.roles by_name)
