-- ===== src/Api/Mcp/Callback/Laws.antt =====
-- What a callback does to the state that it was called with.
use software_factory_ai.Common.{
  ◌≡◌, refl, sym, ap, ◌∙◌, true, false, Option, none, some, List, [], ◌∷◌, String, ◌==◌, string_eq,
  Bool-cases, inl, inr, ==_refl, ◌≢◌,
}
use software_factory_ai.Common.Rows.{update_row}
use software_factory_ai.Json.Values.{is_filled}
use software_factory_ai.Database.{Draw}
use software_factory_ai.Database.Settings.{McpServer, Settings}
use software_factory_ai.Mcp.{Outcome, done, oauth_error, crashed, Outside}
use software_factory_ai.Mcp.Laws.{complete_authorization-clears}
use software_factory_ai.Mcp.Authorization.{complete_authorization}
use software_factory_ai.Api.Auth.{Response, ok}
use software_factory_ai.Api.Mcp.{save_server, write_server}
use software_factory_ai.Api.Agents.{record_change}
use software_factory_ai.Api.Mcp.Callback.{
  Page, invalid_request, expired, authorized, has_state, pending, after_exchange, with_pending,
  oauth_callback,
}

cons_nil {ℓ} : {A : Type ℓ} (a : A) (as' : List A) → (a ∷ as') ≢ []
cons_nil a as' h = cc

cons-inv {ℓ} : {A : Type ℓ} (a b : A) (as' bs : List A) → (a ∷ as') ≡ b ∷ bs → (a ≡ b) × (as' ≡ bs)
cons-inv a b as' bs h = (cc, cc)

-- A write of a row without a state leaves no row with a state that no row had.
pending-none :
    (servers : List McpServer) (state id : String) (new : McpServer)
    → new.oauth_state ≡ none
    → pending servers state ≡ []
    → pending (update_row (λ x. x.id) id (λ _. new) servers) state ≡ []
unfolding pending update_row
pending-none [] state id new clear h = refl
pending-none (x ∷ servers) state id new clear h =
    elim (Bool-cases (has_state state x.oauth_state)) [
      | inl t ↦
          let c : x ∷ pending servers state ≡ [] = rw t at h in
          absurd (cons_nil x (pending servers state) c)
      | inr t ↦ elim (Bool-cases (x.id == id)) [
        | inl i ↦ rw (i, clear) (pending-none servers state id new clear (rw t at h))
        | inr i ↦ rw (i, t) (pending-none servers state id new clear (rw t at h))
      ]
    ]

-- The write of the one row with a state, without it, leaves none.
pending-cleared :
    (servers : List McpServer) (state id : String) (server new : McpServer)
    → id ≡ server.id
    → new.oauth_state ≡ none
    → pending servers state ≡ server ∷ []
    → pending (update_row (λ x. x.id) id (λ _. new) servers) state ≡ []
unfolding pending update_row
pending-cleared [] state id server new here clear h = cc
pending-cleared (x ∷ servers) state id server new here clear h =
    elim (Bool-cases (has_state state x.oauth_state)) [
      | inl t ↦
          let (same, rest) = cons-inv x server (pending servers state) [] (rw t at h) in
          let i : (x.id == id) ≡ true = ap (λ y. y.id == id) same ∙ rw here (==_refl server.id) in
          rw (i, clear) (pending-none servers state id new clear rest)
      | inr t ↦ elim (Bool-cases (x.id == id)) [
        | inl i ↦ rw (i, clear) (pending-cleared servers state id server new here clear (rw t at h))
        | inr i ↦ rw (i, t) (pending-cleared servers state id server new here clear (rw t at h))
      ]
    ]

page-inv :
    (s s' : Settings) (p q : Page)
    → ◌≡◌ {A = Response (Settings × Page)} (ok (s, p)) (ok (s', q))
    → (s ≡ s') × (p ≡ q)
page-inv s s' p q h = (cc, cc)

after_exchange-authorized :
    (w : Draw) (server : McpServer) (out : Outcome McpServer) (s s' : Settings) (name : String)
    → after_exchange w server out s ≡ ok (s', authorized name)
    → (new : McpServer) × (out ≡ done new)
      × (s'.servers
          ≡ update_row (λ x. x.id) new.id (λ _. record new { last_error = none }) s.servers)
unfolding after_exchange save_server write_server record_change
after_exchange-authorized w server (done new) s s' name h =
    (new, refl, ap (λ x. x.servers) (sym (page-inv _ s' _ (authorized name) h).0))
after_exchange-authorized w server (oauth_error e) s s' name h = cc
after_exchange-authorized w server crashed s s' name h = cc

with_pending-authorized :
    (o : Outside) (w : Draw) (code state : String) (found : List McpServer) (s s' : Settings)
    (name : String)
    → pending s.servers state ≡ found
    → with_pending o w code found s ≡ ok (s', authorized name)
    → pending s'.servers state ≡ []
unfolding with_pending
with_pending-authorized o w code state [] s s' name f h = cc
with_pending-authorized o w code state (server ∷ []) s s' name f h =
    let (new, made, rows) =
      after_exchange-authorized w server (complete_authorization o code server) s s' name h in
    let (clear, _, same) = complete_authorization-clears o code server new made in
    rw rows (
      pending-cleared s.servers state new.id server (record new { last_error = none }) same clear f)
with_pending-authorized o w code state (server ∷ other ∷ servers) s s' name f h = cc

not_authorized :
    (s s' : Settings) (p : Page) (name : String)
    → p ≢ authorized name
    → ◌≢◌ {A = Response (Settings × Page)} (ok (s, p)) (ok (s', authorized name))
not_authorized s s' p name other h = other (page-inv s s' p (authorized name) h).1

-- A state is used once: after a callback that ended with an authorization, another callback with
-- the same state and any code finds nothing pending, and changes nothing.
pub oauth_callback-once :
    (o o' : Outside) (w w' : Draw) (state code code' : String) (error : Option String)
    (s s' : Settings) (name : String)
    → is_filled (some code') ≡ true
    → oauth_callback o w (some state) (some code) error s ≡ ok (s', authorized name)
    → oauth_callback o' w' (some state) (some code') none s' ≡ ok (s', expired)
unfolding oauth_callback with_pending
oauth_callback-once o o' w w' state code code' error s s' name filled h =
    elim (Bool-cases (is_filled error)) [
      | inl t ↦ absurd (not_authorized s s' _ name (λ c. cc) (rw t at h))
      | inr t ↦ elim (Bool-cases (state == "")) [
        | inl e ↦ absurd (not_authorized s s' invalid_request name (λ c. cc) (rw (t, e) at h))
        | inr e ↦ elim (Bool-cases (code == "")) [
          | inl c ↦ absurd (not_authorized s s' invalid_request name (λ x. cc) (rw (t, e, c) at h))
          | inr c ↦ elim (Bool-cases (code' == "")) [
            | inl c' ↦ let b : false ≡ true = rw c' at filled in cc
            | inr c' ↦
                rw
                  (
                    e,
                    c',
                    with_pending-authorized o w code state (pending s.servers state) s s' name refl
                        (rw (t, e, c) at h),
                  )
                  refl
          ]
        ]
      ]
    ]
