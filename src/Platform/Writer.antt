-- ===== src/Platform/Writer.antt =====
-- The edits of the service catalogue: internal/repository/context_writer_repository.go.
-- `retry.RetryOnConflict` is a parameter.
use okdp_control_plane_serve.Base.{String, Option, none, some, List, [], if◌then◌else◌}
use okdp_control_plane_serve.Base.Go.{Result, ok, err, Action, raise, try}
use okdp_control_plane_serve.Base.Json.{Json, Fields}
use okdp_control_plane_serve.Platform.Model.{PlatformService}
use okdp_control_plane_serve.Platform.Sections.{
  without_service, found_in, append_service_to_category, platform_service_to_map,
}
use okdp_control_plane_serve.Platform.Context.{
  ContextError, read_failed, malformed, Unstructured, ContextApi,
}
use okdp_control_plane_serve.Platform.Reading.{categories_path}

unfoldable pub or_empty : Option (List Json) → List Json
or_empty none = []
or_empty (some vs) = vs

-- The edits of the sections.
unfoldable pub add_edit : PlatformService → List Json → List Json
add_edit svc sections =
    append_service_to_category sections svc.category (platform_service_to_map svc)

-- The sections are changed in place: those that hold no such service still get a list of services.
unfoldable pub update_edit : String → PlatformService → List Json → List Json
unfolding add_edit
update_edit name svc sections =
    let left = without_service name sections in
    if found_in name sections then add_edit svc left else left

unfoldable pub remove_edit : String → List Json → List Json
remove_edit name sections = without_service name sections

module _ (k : Unstructured) {W : Type 0} (c : ContextApi W) where
  -- The new object of one attempt, from the one that was read.
  unfoldable pub edited : (List Json → List Json) → Fields → Result ContextError Fields
  unfolding or_empty
  edited fn cur = elim (k.nested_slice cur categories_path) [
    | err e ↦ err (malformed "serviceCatalog.categories")
    | ok categories ↦ k.set_nested_slice cur (fn (or_empty categories)) categories_path
  ]

  unfoldable pub send : Result ContextError Fields → Action W ContextError (Unit {0})
  send (err e) = raise e
  send (ok u) = c.update u

  unfoldable pub attempt_on :
      (List Json → List Json) → Result ContextError Fields → Action W ContextError (Unit {0})
  unfolding edited send
  attempt_on fn (err e) = raise (read_failed e)
  attempt_on fn (ok cur) = send (edited fn cur)

  -- One attempt of `mutateCategories`.
  unfoldable pub attempt : (List Json → List Json) → Action W ContextError (Unit {0})
  unfolding attempt_on
  attempt fn = try c.get (attempt_on fn)

  module _ (retry : Action W ContextError (Unit {0}) → Action W ContextError (Unit {0})) where
    -- `mutateCategories`. None of the edits fails.
    unfoldable pub mutate_categories : (List Json → List Json) → Action W ContextError (Unit {0})
    unfolding attempt
    mutate_categories fn = retry (attempt fn)

    -- `AddPlatformService`
    unfoldable pub add_platform_service : PlatformService → Action W ContextError (Unit {0})
    unfolding mutate_categories add_edit
    add_platform_service svc = mutate_categories (add_edit svc)

    -- `UpdatePlatformService`
    unfoldable pub update_platform_service :
        String → PlatformService → Action W ContextError (Unit {0})
    unfolding mutate_categories update_edit
    update_platform_service name svc = mutate_categories (update_edit name svc)

    -- `RemovePlatformService`
    unfoldable pub remove_platform_service : String → Action W ContextError (Unit {0})
    unfolding mutate_categories remove_edit
    remove_platform_service name = mutate_categories (remove_edit name)
