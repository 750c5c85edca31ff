-- ===== src/Api/Mcp/Links/Deletion.antt =====
-- The deletion of a server that no agent uses keeps the links of the agents.
use Prim.Native.String.{String}
use mathlib.Core.Option.{some-injective}
use software_factory_ai.Common.{
  ◌≡◌, refl, sym, ap, subst, ◌∙◌, Bool, true, false, Option, none, some, List, [], ◌∷◌,
  if◌then◌else◌, ◌==◌, string_eq, contains, Bool-cases, inl, inr,
}
use software_factory_ai.Common.Rows.{find_row, find_row-key}
use software_factory_ai.Json.{Json, get_field, is_in, is_true}
use software_factory_ai.Json.Values.{elements}
use software_factory_ai.Database.{Draw, User}
use software_factory_ai.Database.Settings.{AgentDefinition, McpServer, Settings}
use software_factory_ai.Api.Auth.{ok, require_role, found, require}
use software_factory_ai.Api.Transitions.{bind-inv, ok-injective, require-inv, found-inv}
use software_factory_ai.Api.Agents.{names_of, validate_mcp_servers, check_servers, record_change}
use software_factory_ai.Api.Mcp.{
  declares, member_or_crash, agents_using, is_empty, remove_row, delete_server,
}
use software_factory_ai.Api.Mcp.Links.{Keeps, elements-absent, elements_answer-kept}

member-false : (o : Option Bool) → member_or_crash o ≡ ok false → o ≡ some false
member-false none h = cc
member-false (some b) h = ap some (ok-injective b false h)

-- The link of an agent: its servers are known, or it has none.
unfoldable pub Linked : Settings → AgentDefinition → Type 0
Linked s a = check_servers s (get_field a.configuration "mcp_servers") ≡ ok tt

unfoldable pub AllLinked : Settings → List AgentDefinition → Type 0
AllLinked s [] = Unit
AllLinked s (a ∷ agents) = Linked s a × AllLinked s agents

check_servers-kept :
    (name : String) (s s' : Settings) (o : Option Json)
    → Keeps name (names_of s.servers) (names_of s'.servers)
    → declares name o ≡ ok false
    → check_servers s o ≡ ok tt
    → check_servers s' o ≡ ok tt
unfolding validate_mcp_servers
check_servers-kept name s s' none k d h = refl
check_servers-kept name s s' (some v) k d h = elim (Bool-cases (is_true v)) [
  | inl t ↦ rw t (
      elements_answer-kept name (names_of s.servers) (names_of s'.servers) (elements v) k
        (λ vs e. elements-absent name v vs (member-false (is_in name v) (rw t at d)) e) (rw t at h))
  | inr t ↦ rw t refl
]

-- An agent of a list in which none uses the name.
agents_using-none :
    (name : String) (a : AgentDefinition) (agents : List AgentDefinition)
    → agents_using name (a ∷ agents) ≡ ok []
    → (declares name (get_field a.configuration "mcp_servers") ≡ ok false)
      × (agents_using name agents ≡ ok [])
unfolding agents_using
agents_using-none name a agents h =
    let (used, d, h1) = bind-inv (declares name (get_field a.configuration "mcp_servers")) _ [] h in
    let (rest, r, h2) =
      bind-inv (agents_using name agents) (λ rest. ok (if used then a.id ∷ rest else rest)) [] h1 in
    step used rest d r (ok-injective _ [] h2)
  where
    step :
        (used : Bool) (rest : List String)
        → declares name (get_field a.configuration "mcp_servers") ≡ ok used
        → agents_using name agents ≡ ok rest
        → (if used then a.id ∷ rest else rest) ≡ []
        → (declares name (get_field a.configuration "mcp_servers") ≡ ok false)
          × (agents_using name agents ≡ ok [])
    step true rest d r e = cc
    step false rest d r e = (d, subst (λ x. agents_using name agents ≡ ok x) e r)

AllLinked-kept :
    (name : String) (s s' : Settings) (agents : List AgentDefinition)
    → Keeps name (names_of s.servers) (names_of s'.servers)
    → agents_using name agents ≡ ok []
    → AllLinked s agents
    → AllLinked s' agents
unfolding AllLinked Linked
AllLinked-kept name s s' [] k u h = tt
AllLinked-kept name s s' (a ∷ agents) k u (here, rest) =
    let (d, u') = agents_using-none name a agents u in
    (
      check_servers-kept name s s' (get_field a.configuration "mcp_servers") k d here,
      AllLinked-kept name s s' agents k u' rest,
    )

-- The ids of the servers differ.
unfoldable pub UniqueIds : List McpServer → Type 0
UniqueIds [] = Unit
UniqueIds (x ∷ servers) = (find_row (λ y. y.id) servers x.id ≡ none) × UniqueIds servers

remove_row-absent :
    (servers : List McpServer) (id : String)
    → find_row (λ y. y.id) servers id ≡ none
    → remove_row servers id ≡ servers
unfolding remove_row find_row
remove_row-absent [] id h = refl
remove_row-absent (x ∷ servers) id h = elim (Bool-cases (x.id == id)) [
  | inl e ↦ let c : some x ≡ none = rw e at h in cc
  | inr e ↦ rw (e, remove_row-absent servers id (rw e at h)) refl
]

remove_row-Keeps :
    (servers : List McpServer) (id : String) (server : McpServer)
    → UniqueIds servers
    → find_row (λ y. y.id) servers id ≡ some server
    → Keeps server.name (names_of servers) (names_of (remove_row servers id))
unfolding remove_row find_row UniqueIds names_of contains
remove_row-Keeps [] id server u h t other k = cc
remove_row-Keeps (x ∷ servers) id server (new, u) h t other k = elim (Bool-cases (x.id == id)) [
  | inl e ↦
      let same : x ≡ server = some-injective x server (rw e at h) in
      let gone =
        subst (λ i. find_row (λ y. y.id) servers i ≡ none) ((string_eq.beq_iff x.id id).0 e) new in
      elim (Bool-cases (x.name == t)) [
        | inl n ↦
            let at_name : t ≡ server.name =
              sym ((string_eq.beq_iff x.name t).0 n) ∙ ap (λ y. y.name) same in
            let c : false ≡ true = sym other ∙ (string_eq.beq_iff t server.name).1 at_name in cc
        | inr n ↦ rw (e, remove_row-absent servers id gone) (rw n at k)
      ]
  | inr e ↦ elim (Bool-cases (x.name == t)) [
    | inl n ↦ rw (e, n) refl
    | inr n ↦ rw (e, n) (remove_row-Keeps servers id server u (rw e at h) t other (rw n at k))
  ]
]

empty-nil : (xs : List String) → is_empty xs ≡ true → xs ≡ []
empty-nil [] h = refl
empty-nil (x ∷ xs) h = cc

-- A deletion of a server that is accepted keeps the links: where the ids of the servers differ
-- and each agent is linked to known servers only, each still is.
pub delete_server-AllLinked :
    (w : Draw) (caller : User) (server_id : String) (s s' : Settings)
    → UniqueIds s.servers
    → AllLinked s s.agents
    → delete_server w caller server_id s ≡ ok s'
    → AllLinked s' s'.agents
unfolding delete_server record_change
delete_server-AllLinked w caller server_id s s' unique linked h =
    let (user, _, h1) = bind-inv (require_role "ADMIN" caller) _ s' h in
    let (server, f, h2) = bind-inv (found (find_row (λ x. x.id) s.servers server_id)) _ s' h1 in
    let (in_use, used, h3) = bind-inv (agents_using server.name s.agents) _ s' h2 in
    let (_, free, h4) = bind-inv (require (is_empty in_use) 409) _ s' h3 in
    let here = found-inv _ server f in
    let id = find_row-key (λ x. x.id) s.servers server_id server here in
    let keeps = remove_row-Keeps s.servers server.id server unique (rw id here) in
    let unused : agents_using server.name s.agents ≡ ok [] =
      subst (λ x. agents_using server.name s.agents ≡ ok x)
        (empty-nil in_use (require-inv _ 409 _ free)) used in
    subst (λ x. AllLinked x x.agents) (ok-injective _ s' h4)
      (AllLinked-kept server.name s _ s.agents keeps unused linked)
