-- ===== src/Registry/Tests.antt =====
-- crates/registry/src/lib.rs: tests, and the theorems at concrete inputs.
use headless_mcp_server.Prelude.{
  ℕ, ◌-◌, ◌*◌, min, String, ◌≡◌, ◌≢◌, ◌⊎◌, refl, eq_iff, true, false, not, ◌&&◌, Option, none, some,
  [], ◌∷◌, ok, err, arith, contains, if◌then◌else◌, Memᴰ, IsSorted, ◌↔◌,
}
use Prim.Native.Nat.{◌^◌, ◌+◌}
use mathlib.Core.Option
use headless_mcp_server.Dict.{update, get, contains_key}
use headless_mcp_server.Json.{Value, null, string, Map, from_map, from_list}
use headless_mcp_server.Core.{
  BackendDef, http, BackendError, backend_error, protocol, McpBackend, eager, log_on_error,
  ToolDescriptor,
}
use headless_mcp_server.Registry.Policy.{
  hidden_args, compute_exposed_name, strip_schema_args, apply_arg_policy, arguments_object,
}
use headless_mcp_server.Registry.Policy.Laws.{
  HasPolicy, Enforced, apply_arg_policy-Enforced, apply_arg_policy-refuses, IsNoObject, Given,
}
use headless_mcp_server.Registry.Policy.Schemas.{
  property, requires, property-strip_schema_args, requires-strip_schema_args,
}
use headless_mcp_server.Registry.Backoff.{delay_ms, delay-eq-doubling, delay-eq-zero}
use headless_mcp_server.Registry.State.{Hub, new, RoutedTool, is_healthy}
use headless_mcp_server.Registry.Connect.{
  routed_tool, index_backend, register, unregister, connect_all, connect_backend,
}
use headless_mcp_server.Registry.Listing.{aggregated_tools, descriptor_name}
use headless_mcp_server.Registry.Listing.Laws.{aggregated_tools_iff}
use headless_mcp_server.Registry.Laws.Indexed.{Exposes, index_backend_iff}
use headless_mcp_server.Registry.Laws.Removal.{IsRemoved, unregister-IsRemoved}
use headless_mcp_server.Registry.Laws.Ownership.{connect_backend-others}
use headless_mcp_server.Registry.Invariant.{IsWellFormed}
use headless_mcp_server.Registry.Invariant.Connecting.{register-keeps}
use headless_mcp_server.Registry.Invariant.Reachable.{
  Reach, starts, goes_on, registers, connects_all, Reach-IsWellFormed,
}

abbrev pub shop : BackendDef
shop = record {
  id = "shop";
  label = none;
  transport = http "https://shop.example" none none;
  namespace = some "shop";
  connection_mode = eager;
  connect_timeout_secs = 10;
  call_timeout_secs = 30;
  stderr_mode = log_on_error;
  tools_allow = [];
  tools_deny = "drop" ∷ [];
  unavailable_hint = none;
  forward_request_meta = false;
  pin_args = ("tenant", string "eu") ∷ [];
  deny_args = "token" ∷ [];
}

abbrev schema : Value
schema = from_map (
    ("properties", from_map (("q", null) ∷ ("token", null) ∷ ("tenant", null) ∷ []))
    ∷ ("required", from_list (string "q" ∷ string "tenant" ∷ []))
    ∷ [])

abbrev find_tool : ToolDescriptor
find_tool = record { name = "find"; description = ""; input_schema = schema }

abbrev drop_tool : ToolDescriptor
drop_tool = record { name = "drop"; description = ""; input_schema = null }

-- The world counts the calls.
abbrev pub counting : McpBackend ℕ
counting = record {
  backend_id = "shop";
  connect = λ w. (
    ok (record {
      protocol_version = "2025-06-18";
      server_info = record { name = "shop"; version = "1" };
      capabilities = record { tools = none; resources = none; prompts = none; events = none };
    }),
    w + 1,
  );
  list_tools = λ w. (ok (find_tool ∷ drop_tool ∷ []), w + 1);
  call_tool = λ name args timeout w. (ok (string name), w + 1);
  disconnect = λ w. (ok tt, w);
  health_check = λ w. (ok tt, w);
  request = λ method params timeout w. (ok null, w + 1);
  take_tools_refresh = λ w. (false, w);
}

abbrev pub registered : Hub ℕ
registered = (register shop counting (new 0)).1

abbrev pub connected : Hub ℕ
connected = (connect_all registered).1

connected_test :
    Option.map (λ (t : RoutedTool). t.downstream_name) (get "shop.find" connected.tool_index)
    ≡ some "find"
unfolding register connect_all get compute_exposed_name
connected_test = refl

connected-Reach : Reach connected
connected-Reach =
    goes_on _ _ (goes_on _ _ (starts 0) (registers _ shop counting)) (connects_all registered)

Reach-IsWellFormed_example : IsWellFormed connected
Reach-IsWellFormed_example = Reach-IsWellFormed connected connected-Reach

connected-IsWellFormed : IsWellFormed connected
connected-IsWellFormed = Reach-IsWellFormed connected connected-Reach

abbrev listed_find : ToolDescriptor
listed_find = record {
  name = "shop.find";
  description = "";
  input_schema = strip_schema_args schema (hidden_args shop);
}

aggregated_tools_iff_example :
    IsSorted descriptor_name (aggregated_tools connected)
    × ((d : ToolDescriptor)
        → Memᴰ d (aggregated_tools connected) ↔ (
            (t : RoutedTool) × (get d.name connected.tool_index ≡ some t)
            × (is_healthy t.backend_id connected ≡ true)
            × (d ≡ t.descriptor)))
aggregated_tools_iff_example = aggregated_tools_iff connected connected-IsWellFormed

unregister-IsRemoved_example :
    IsRemoved "shop" connected (unregister "shop" connected).1 (unregister "shop" connected).0
unregister-IsRemoved_example = unregister-IsRemoved "shop" connected connected-IsWellFormed

abbrev indexed_find : RoutedTool
indexed_find = routed_tool "shop" shop find_tool

indexed_again : (index_backend "shop" shop (find_tool ∷ []) connected).0 ≡ ok tt
unfolding register connect_all get compute_exposed_name update index_backend
indexed_again = refl

index_backend_iff_example :
    (get "shop.find" (index_backend "shop" shop (find_tool ∷ []) connected).1.tool_index
      ≡ some indexed_find)
    ↔ (((get "shop.find" connected.tool_index ≡ some indexed_find)
          × (indexed_find.backend_id ≢ "shop"))
        ⊎ Exposes "shop" shop (find_tool ∷ []) "shop.find" indexed_find)
index_backend_iff_example =
    index_backend_iff "shop" shop (find_tool ∷ []) connected "shop.find" indexed_find
      connected-IsWellFormed indexed_again

abbrev mail : BackendDef
mail = record shop { id = "mail"; namespace = some "mail" }

abbrev both_registered : Hub ℕ
both_registered = (register mail counting connected).1

still_indexed : get "shop.find" both_registered.tool_index ≡ some indexed_find
unfolding register connect_all get compute_exposed_name update contains_key
still_indexed = refl

connect_backend-others_example :
    get "shop.find" (connect_backend "mail" both_registered).1.tool_index ≡ some indexed_find
connect_backend-others_example =
    connect_backend-others "mail" "shop.find" indexed_find both_registered
      (register-keeps mail counting connected connected-IsWellFormed) still_indexed
      (λ h. cc ((eq_iff "shop" "mail").1 h))

abbrev given : Option Value
given = some (from_map (("q", string "tea") ∷ ("tenant", string "us") ∷ []))

abbrev sent : Option Value
sent = some (from_map (("q", string "tea") ∷ ("tenant", string "eu") ∷ []))

sent_test : apply_arg_policy shop given ≡ ok sent
unfolding apply_arg_policy
sent_test = refl

shop-HasPolicy : HasPolicy shop
shop-HasPolicy = refl

apply_arg_policy-Enforced_example :
    (g s : Map) × (arguments_object given ≡ ok g) × (sent ≡ some (from_map s)) × Enforced shop g s
apply_arg_policy-Enforced_example =
    apply_arg_policy-Enforced shop given sent shop-HasPolicy (unfold contains_key in (refl, tt))
      sent_test

abbrev stolen : Option Value
stolen = some (from_map (("token", null) ∷ []))

abbrev not_allowed : BackendError
not_allowed = backend_error protocol "argument 'token' is not allowed for backend 'shop'"

stolen_test : apply_arg_policy shop stolen ≡ err not_allowed
unfolding apply_arg_policy
stolen_test = refl

apply_arg_policy-refuses_example :
    HasPolicy shop
    × (protocol ≡ protocol)
    × (IsNoObject stolen
        ⊎ ((g : Map) × (k : String) × Given stolen g
            × (contains shop.deny_args k ≡ true)
            × (contains_key k g ≡ true)))
apply_arg_policy-refuses_example = apply_arg_policy-refuses shop stolen not_allowed stolen_test

property-strip_schema_args_example :
    property "token" (strip_schema_args schema (hidden_args shop))
    ≡ (if contains (hidden_args shop) "token" then none else property "token" schema)
property-strip_schema_args_example = property-strip_schema_args schema (hidden_args shop) "token"

requires-strip_schema_args_example :
    requires "q" (strip_schema_args schema (hidden_args shop))
    ≡ (not (contains (hidden_args shop) "q") && requires "q" schema)
requires-strip_schema_args_example = requires-strip_schema_args schema (hidden_args shop) "q"

delay-eq-doubling_example : delay_ms 3 ≡ min (1000 * 2 ^ (3 - 1)) 60000
delay-eq-doubling_example = delay-eq-doubling 3 (omega arith)

delay-eq-zero_example : delay_ms 62 ≡ 0
delay-eq-zero_example = delay-eq-zero 62 (omega arith)
