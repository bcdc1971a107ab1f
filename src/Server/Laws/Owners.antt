-- ===== src/Server/Laws/Owners.antt =====
-- crates/mcp-server/src/session.rs: which backend an event name leads to.
use mathlib.Core.Path.{subst}
use text.Mathlib.TextLemmas.{append_assoc}
use headless_mcp_server.Prelude.{
  String, ◌≡◌, refl, sym, ap, ◌∙◌, Option, none, some, [], ◌∷◌, arith, strip_prefix_sound,
  strip_prefix-append, find_map_sound, find_map_total, concat, Memᴰ,
}
use headless_mcp_server.Registry.State.{Hub, namespace}
use headless_mcp_server.Registry.Listing.{backends_with}
use headless_mcp_server.Server.Events.{
  in_namespace, out_of_namespace, tagged, exposed_event_name, event_owner,
}

out_of_namespace_sound :
    (ns : Option String) (name original : String)
    → out_of_namespace ns name ≡ some original
    → in_namespace ns original ≡ name
out_of_namespace_sound none name original h = ground arith
out_of_namespace_sound (some ns) name original h =
    sym (append_assoc ns "." original) ∙ strip_prefix_sound (concat (ns ∷ "." ∷ [])) name original h

pub out_of_namespace-in_namespace :
    (ns : Option String) (name : String) → out_of_namespace ns (in_namespace ns name) ≡ some name
out_of_namespace-in_namespace none name = refl
out_of_namespace-in_namespace (some ns) name =
    rw (sym (append_assoc ns "." name)) (strip_prefix-append (concat (ns ∷ "." ∷ [])) name)

-- The name is one that the backend `id` alone exposes, among the backends with events.
abbrev pub IsOnlyOf : {W : Type 0} → Hub W → String → String → Type 0
IsOnlyOf hub id name =
    (j original : String)
    → Memᴰ j (backends_with "events" hub)
    → exposed_event_name hub j original ≡ name
    → j ≡ id

tagged_sound :
    (id : String) (o : Option String) (owner : String × String)
    → tagged id o ≡ some owner
    → (id ≡ owner.0) × (o ≡ some owner.1)
tagged_sound id none owner h = ground arith
tagged_sound id (some original) owner h =
    let same : (id, original) ≡ owner = cc in
    (ap (λ (p : String × String). p.0) same, ap (λ (p : String × String). some p.1) same)

module _ {W : Type 0} where
  event_owner_sound :
      (hub : Hub W) (name id original : String)
      → event_owner hub name ≡ some (id, original)
      → Memᴰ id (backends_with "events" hub)
        × (out_of_namespace (namespace id hub) name ≡ some original)
  unfolding event_owner
  event_owner_sound hub name id original h =
      let (j, listed, at_j) = find_map_sound _ (id, original) (backends_with "events" hub) h in
      let (same, taken) =
        tagged_sound j (out_of_namespace (namespace j hub) name) (id, original) at_j in
      (
        subst (λ x. Memᴰ x (backends_with "events" hub)) same listed,
        subst (λ x. out_of_namespace (namespace x hub) name ≡ some original) same taken,
      )

  event_owner_total :
      (hub : Hub W) (id original : String)
      → Memᴰ id (backends_with "events" hub)
      → (owner : String × String) × (event_owner hub (in_namespace (namespace id hub) original)
          ≡ some owner)
  unfolding event_owner
  event_owner_total hub id original m =
      find_map_total _ (id, original) id (backends_with "events" hub) m
        (ap (tagged id) (out_of_namespace-in_namespace (namespace id hub) original))

  -- The name by which a backend with events exposes an event leads to this backend and to the event
  -- itself, if no other backend with events exposes any event by that name.
  pub event_owner-exposed_event_name :
      (hub : Hub W) (id original : String)
      → Memᴰ id (backends_with "events" hub)
      → IsOnlyOf hub id (exposed_event_name hub id original)
      → event_owner hub (exposed_event_name hub id original) ≡ some (id, original)
  unfolding exposed_event_name
  event_owner-exposed_event_name hub id original m only =
      let name = in_namespace (namespace id hub) original in
      let ((j, event), found) = event_owner_total hub id original m in
      let (listed, taken) = event_owner_sound hub name j event found in
      let same : j ≡ id =
        only j event listed (out_of_namespace_sound (namespace j hub) name event taken) in
      let taken_by_id =
        subst (λ x. out_of_namespace (namespace x hub) name ≡ some event) same taken in
      let back = out_of_namespace-in_namespace (namespace id hub) original in
      let same_event : event ≡ original = cc in
      found
      ∙ ap (λ (x : String). some (x, event)) same
      ∙ ap (λ (x : String). some (id, x)) same_event
