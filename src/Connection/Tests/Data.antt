-- ===== src/Connection/Tests/Data.antt =====
-- A contract, a request and a cluster for the tests.
use okdp_control_plane_serve.Base.{
  ℕ, String, true, false, Option, none, some, List, [], ◌∷◌, ltb, ◌==◌, ◌&&◌, if◌then◌else◌,
}
use okdp_control_plane_serve.Base.Dict.{Dict}
use okdp_control_plane_serve.Connection.Model.{
  Value, string, number, NumberKind, ConnectionField, ContractDescriptor,
}
use okdp_control_plane_serve.Connection.Catalog.{Floats}
use okdp_control_plane_serve.Connection.Repository.{
  Connection, Secret, label_managed_by, managed_by_value,
}
use okdp_control_plane_serve.Connection.Credentials.{ConnectionRequest, ConnectionService}
use okdp_control_plane_serve.Connection.Tests.Cluster.{World, memory}

abbrev pub whole_numbers : Floats ℕ
whole_numbers = record { lt = ltb }

abbrev pub host : ConnectionField ℕ
host = record {
  name = "host";
  label = "Host";
  type = "string";
  required = true;
  secret = false;
  masked = false;
  default = none;
  options = [];
  placeholder = "";
  help = "";
  min = none;
  max = none;
  show_when = none;
  derived = none;
}

abbrev pub port : ConnectionField ℕ
port = record host {
  name = "port";
  label = "Port";
  type = "number";
  default = some (number NumberKind.float64 5432);
  min = some 1;
  max = some 65535;
}

abbrev pub password : ConnectionField ℕ
password = record host { name = "password"; label = "Password"; secret = true }

abbrev pub database_server : ContractDescriptor ℕ
database_server = record {
  name = "database-server";
  display_name = "SQL database";
  description = "";
  icon = "";
  category = "database";
  external = true;
  fields = host ∷ port ∷ password ∷ [];
  endpoint_from = "host" ∷ [];
}

abbrev pub contracts : List (ContractDescriptor ℕ)
contracts = database_server ∷ []

abbrev pub service : ConnectionService ℕ World
service = record {
  cluster = memory;
  catalog = contracts;
  floats = whole_numbers;
  name_error = λ name. if name == "" then some "empty" else none;
}

abbrev pub submitted_values : Dict (Value ℕ)
submitted_values = ("host", string "db.example.com") ∷ ("password", string "s3cret") ∷ []

abbrev pub complete_values : Dict (Value ℕ)
complete_values = ("port", number NumberKind.float64 5432) ∷ submitted_values

abbrev pub request : ConnectionRequest ℕ
request = record {
  name = "warehouse";
  type = "database-server";
  description = "";
  values = submitted_values;
  existing_secret = "";
}

abbrev pub empty : World
empty = record { connections = λ ns n. none; secrets = λ ns n. none }

abbrev pub live : Connection ℕ
live = record {
  api_version = "";
  kind = "";
  name = "warehouse";
  namespace = "demo";
  resource_version = "7";
  creation_timestamp = "";
  labels = [];
  annotations = [];
  spec = record {
    contract = "database-server";
    values = ("host", string "db.example.com") ∷ [];
    output_name = "";
    description = "";
  };
  status = record {
    phase = "";
    parent = "";
    message = "";
    contract_kind = "";
    contract_display = "";
  };
}

-- A Secret that a vault put at the conventional name.
abbrev pub vault_secret : Secret
vault_secret = record {
  name = "warehouse-credentials";
  namespace = "demo";
  resource_version = "3";
  labels = [];
  contents = ("password", "from the vault") ∷ [];
}

abbrev pub our_old_secret : Secret
our_old_secret = record vault_secret {
  labels = (label_managed_by, managed_by_value) ∷ [];
  contents = ("password", "old") ∷ ("token", "kept") ∷ [];
}

abbrev pub at_demo : {A : Type 0} → String → A → String → String → Option A
at_demo name a ns n = if (ns == "demo") && (n == name) then some a else none

abbrev pub occupied : World
occupied = record {
  connections = at_demo "warehouse" live;
  secrets = at_demo "warehouse-credentials" vault_secret;
}

abbrev pub with_our_secret : World
with_our_secret = record {
  connections = λ ns n. none;
  secrets = at_demo "warehouse-credentials" our_old_secret;
}
