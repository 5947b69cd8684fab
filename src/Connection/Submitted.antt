-- ===== src/Connection/Submitted.antt =====
-- The objects that `Create` and `Update` submit and the responses built from them, of
-- internal/service/connection_service.go.
use Prim.Native.String
use okdp_control_plane_serve.Base.{
  String, Bool, false, Option, none, some, List, [], ◌∷◌, ◌==◌, if◌then◌else◌, ◌&&◌, ◌||◌, not,
}
use okdp_control_plane_serve.Base.Dict.{Dict, lookup, insert}
use okdp_control_plane_serve.Base.Text.{cut, format_bool}
use okdp_control_plane_serve.Connection.Model.{Value, string, ContractDescriptor}
use okdp_control_plane_serve.Connection.Repository.{
  Connection, label_managed_by, managed_by_value, text_at,
}
use okdp_control_plane_serve.Connection.Credentials.{
  annotation_credentials_secret, annotation_credentials_owned, value_secret_ref, ConnectionRequest,
  credentials_owned, credentials_secret_of, with_credentials_secret,
}
use okdp_control_plane_serve.Connection.Requests.{Prepared}

pub record CredentialsSecretRef : Type 0 where
  pub name : String
  pub namespace : String
  pub keys : List String
  pub owned : Bool

pub record ConnectionResponse (F : Type 0) : Type 0 where
  pub name : String
  pub type : String
  pub scope : String
  pub namespace : String
  pub description : String
  pub status : String
  pub message : String
  pub values : Dict (Value F)
  pub secret_fields : List String
  pub credentials_secret : Option CredentialsSecretRef
  pub created_at : String

-- `namespace + "/" + name`
abbrev pub reference : String → String → String
reference namespace name = String.◌++◌ namespace (String.◌++◌ "/" name)

-- The annotations and values of an edit, and the Secret that it leaves behind, if any.
pub record Edit (F : Type 0) : Type 0 where
  pub annotations : Dict String
  pub values : Dict (Value F)
  pub orphaned : String

module _ {F : Type 0} where
  -- The connection that `Create` submits.
  unfoldable pub new_connection :
      String → ConnectionRequest F → ContractDescriptor F → Prepared F → Connection F
  unfolding format_bool
  new_connection namespace req d p = record {
    api_version = "";
    kind = "";
    name = req.name;
    namespace = namespace;
    resource_version = "";
    creation_timestamp = "";
    labels = (label_managed_by, managed_by_value) ∷ [];
    annotations =
        if p.has_secrets || not p.own_secret
        then (annotation_credentials_secret, reference namespace p.secret_name)
          ∷ (annotation_credentials_owned, format_bool p.own_secret)
          ∷ []
        else [];
    spec = record {
      contract = d.name;
      values = p.public;
      output_name = "";
      description = req.description;
    };
    status = record {
      phase = "";
      parent = "";
      message = "";
      contract_kind = "";
      contract_display = "";
    };
  }

  -- The reference that `toResponse` shows, read from the annotations.
  unfoldable pub secret_ref_of : Connection F → List String → Option CredentialsSecretRef
  unfolding cut text_at credentials_owned
  secret_ref_of connection fields =
      elim (cut b'/' (text_at annotation_credentials_secret connection.annotations)) [
        | none ↦ none
        | some (ns, name) ↦ elim fields [
          | [] ↦ none
          | f ∷ fs ↦ some (record {
            name = name;
            namespace = ns;
            keys = f ∷ fs;
            owned = credentials_owned connection.annotations connection.name name;
          })
        ]
      ]

  -- `Update` for a request that names an existing Secret.
  unfoldable pub point_elsewhere :
      String → ConnectionRequest F → Connection F → Dict (Value F) → Edit F
  unfolding credentials_secret_of with_credentials_secret
  point_elsewhere namespace req existing public =
      let (previous, owned) = credentials_secret_of existing req.name in
      record {
        annotations =
            with_credentials_secret existing.annotations (reference namespace req.existing_secret)
              false;
        values = insert value_secret_ref (string req.existing_secret) public;
        orphaned = if owned && not (previous == req.existing_secret) then previous else "";
      }

  -- `Update` where no credential was resubmitted: the reference is carried over.
  unfoldable pub carry_over : Connection F → Dict (Value F) → Edit F
  carry_over existing public = record {
    annotations = existing.annotations;
    values = elim (lookup value_secret_ref existing.spec.values) [
      | none ↦ public
      | some previous ↦ insert value_secret_ref previous public
    ];
    orphaned = "";
  }

  -- The connection that `Update` submits.
  unfoldable pub edited :
      ConnectionRequest F → ContractDescriptor F → Connection F → Edit F → Connection F
  edited req d existing e = record existing {
    annotations = e.annotations;
    spec = record {
      contract = d.name;
      values = e.values;
      output_name = existing.spec.output_name;
      description = req.description;
    };
  }
