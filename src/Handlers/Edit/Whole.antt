-- ===== src/Handlers/Edit/Whole.antt =====
-- `handleTunnelEdit` of internal/handlers/tunnel_edit.go keeps the state of the routing, a change of the tag included.
use slipgate.Prelude.{
  ◌≡◌, refl, ap, ◌∙◌, Bytes, bytes_eq, is_some, some, true, false, Option-cases, Bool-cases, inl,
  inr, if◌then◌else◌, arith, List, [], ◌∷◌, bytes_eq_iff,
}
use slipgate.Config.{TunnelConfig, Config}
use slipgate.Config.Store.{get_tunnel, find_key, tunnel_key}
use slipgate.Config.Validation.{Invalid}
use slipgate.Host.{
  World, Env, gets, get_config, set_config, modify, ◌>>=◌, on_option, done, pure, raise,
}
use slipgate.Host.Keeps.{Keeps}
use slipgate.Host.Leads.{Leads, Leads-bind, Leads-bind-Returns, Leads-then, set_config-Leads}
use slipgate.Host.Returns.{Returns, returns_rules}
use slipgate.Host.Frame.{InMemory, set_config-InMemory}
use slipgate.Transport.{tunnel_dir}
use slipgate.Actions.{Args, fail, fail_because}
use slipgate.Keys.{Crypto}
use slipgate.Handlers.Routed.{IsRouted}
use slipgate.Handlers.Invariant.{handler_rules}
use slipgate.Handlers.Edit.{
  put_tunnel, rename_routes, move_keys, assign_to, rename_tunnel, check_new_tag, edit_tag,
}
use slipgate.Handlers.Edit.Handle.{edit_tunnel, edit_named, pick_tag, handle_tunnel_edit}
use slipgate.Handlers.Edit.Routed.{IsRenamable, put_tunnel-IsRenamable, renamed-IsRouted}
use slipgate.Handlers.Edit.Settings.{
  ask-InMemory, rename_dir-InMemory, check_new_tag-InMemory, edit_domain-IsRouted,
  edit_transport-IsRouted, finish_edit-IsRouted, pick_tag-InMemory,
}

-- The tunnel that is edited is there, in the configuration that was read last.
record IsCurrent (t : TunnelConfig) (read c : Config) : Type 0 where
  pub same : c ≡ read
  pub routed : IsRouted c
  pub there : is_some (get_tunnel c t.tag) ≡ true

record IsEdited (t : TunnelConfig) (c : Config) : Type 0 where
  pub routed : IsRouted c
  pub there : is_some (get_tunnel c t.tag) ≡ true

record IsRead (read c : Config) : Type 0 where
  pub same : c ≡ read
  pub routed : IsRouted c

found_tag :
    (tag : Bytes) (ts : List TunnelConfig) (t : TunnelConfig)
    → find_key tunnel_key tag ts ≡ some t
    → t.tag ≡ tag
unfolding find_key
found_tag tag [] t h = cc
found_tag tag (x ∷ xs) t h = ground (arith, found_tag tag xs t, bytes_eq_iff x.tag tag)

weaken_edited : (t : TunnelConfig) (w : World) → InMemory (IsEdited t) w → InMemory IsRouted w
weaken_edited t w h = record { holds = h.holds.routed }

-- between the change of the routes and that of the tag
record IsHalfway (tag : Bytes) (t : TunnelConfig) (c : Config) : Type 0 where
  pub put : IsRouted (put_tunnel tag t c)

assign_to-IsHalfway :
    (old t : TunnelConfig) (message : Bytes)
    → Leads (InMemory (IsHalfway old.tag t)) (InMemory IsRouted) (assign_to old t message)
unfolding assign_to
assign_to-IsHalfway old t message =
    Leads-then _ _
      (set_config-Leads (IsHalfway old.tag t) IsRouted (put_tunnel old.tag t) (λ c h. h.put))
      (λ _. search handler_rules)

-- The two writes of a change of the tag, with nothing in between.
rename-IsRouted :
    (old t : TunnelConfig) (new_tag message : Bytes)
    → t.tag ≡ new_tag
    → Leads
        (InMemory (IsRenamable old.tag new_tag))
        (InMemory IsRouted)
        (set_config (rename_routes old.tag new_tag) >>= λ _. assign_to old t message)
unfolding set_config modify ◌>>=◌
rename-IsRouted old t new_tag message e = record {
  at = λ w h.
      (assign_to-IsHalfway old t message).at
        (record w { config = rename_routes old.tag new_tag w.config })
        (record { holds = record { put = renamed-IsRouted old.tag new_tag t e w.config h.holds } });
}

module _ ⦃env : Env⦄ (crypto : Crypto) (message_of : Invalid → Bytes) where
  rename_tunnel-IsRouted :
      (new_tag : Bytes) (t : TunnelConfig)
      → Leads
          (InMemory (IsRenamable t.tag new_tag))
          (InMemory IsRouted)
          (rename_tunnel crypto message_of new_tag t)
  unfolding rename_tunnel move_keys
  rename_tunnel-IsRouted new_tag t =
      let weaken : (w : World) → InMemory (IsRenamable t.tag new_tag) w → InMemory IsRouted w =
        λ w h. record { holds = h.holds.routed } in
      Leads-bind _ _ (search (handler_rules, rename_dir-InMemory)) weaken (λ _.
        Leads-bind _ _
          (set_config-InMemory _
            (put_tunnel-IsRenamable t.tag new_tag (move_keys (tunnel_dir new_tag) t) refl))
          weaken
          (λ _. Leads-bind _ _ (search handler_rules) weaken (λ _.
            Leads-bind _ _ (search handler_rules) weaken
              (λ _. rename-IsRouted t _ new_tag _ refl))))

  check_new_tag-fresh :
      (new_tag : Bytes) (c : Config)
      → Returns
          (λ _. is_some (get_tunnel c new_tag) ≡ false)
          (check_new_tag crypto message_of new_tag c)
  unfolding check_new_tag fail fail_because done
  check_new_tag-fresh new_tag c = search returns_rules

  chosen-IsRouted :
      (new_tag : Bytes) (t : TunnelConfig) (c : Config)
      → Leads (InMemory (IsCurrent t c)) (InMemory IsRouted) (
          check_new_tag crypto message_of new_tag c >>= λ _.
          rename_tunnel crypto message_of new_tag t)
  chosen-IsRouted new_tag t c =
      Leads-bind-Returns _ _ _ (search check_new_tag-InMemory) (check_new_tag-fresh new_tag c)
        (λ w h. record { holds = h.holds.routed })
        (λ _ fresh. record {
          at = λ w h. (rename_tunnel-IsRouted new_tag t).at w (record {
            holds = record {
              routed = h.holds.routed;
              there = h.holds.there;
              fresh = ap (λ (d : Config). is_some (get_tunnel d new_tag)) h.holds.same ∙ fresh;
            };
          });
        })

  answered-IsRouted :
      (new_tag : Bytes) (t : TunnelConfig) (c : Config)
      → Leads (InMemory (IsCurrent t c)) (InMemory IsRouted) (
          if bytes_eq new_tag t.tag
          then pure (record { tunnel = t; changed = false })
          else (check_new_tag crypto message_of new_tag c >>= λ _.
              rename_tunnel crypto message_of new_tag t))
  unfolding pure
  answered-IsRouted new_tag t c = elim (Bool-cases (bytes_eq new_tag t.tag)) [
    | inl kept ↦ rw kept (record { at = λ w h. record { holds = h.holds.routed } })
    | inr other ↦ rw other (chosen-IsRouted new_tag t c)
  ]

  compared-IsRouted :
      (new_tag : Bytes) (t : TunnelConfig)
      → Leads (InMemory (IsEdited t)) (InMemory IsRouted) (
          get_config >>= λ c.
          if bytes_eq new_tag t.tag
          then pure (record { tunnel = t; changed = false })
          else (check_new_tag crypto message_of new_tag c >>= λ _.
              rename_tunnel crypto message_of new_tag t))
  unfolding gets ◌>>=◌
  compared-IsRouted new_tag t = record {
    at = λ w h.
        (answered-IsRouted new_tag t w.config).at w (record {
          holds = record { same = refl; routed = h.holds.routed; there = h.holds.there };
        });
  }

  edit_tag-IsRouted :
      (args : Args) (t : TunnelConfig)
      → Leads (InMemory (IsEdited t)) (InMemory IsRouted) (edit_tag crypto message_of args t)
  unfolding edit_tag
  edit_tag-IsRouted args t =
      Leads-bind _ _ (search ask-InMemory) (weaken_edited t)
        (λ new_tag. compared-IsRouted new_tag t)

  edit_tunnel-IsRouted :
      (args : Args) (t : TunnelConfig)
      → Leads (InMemory (IsEdited t)) (InMemory IsRouted) (edit_tunnel crypto message_of args t)
  unfolding edit_tunnel
  edit_tunnel-IsRouted args t = Leads-bind _ _ (search handler_rules) (weaken_edited t) (λ _.
      Leads-bind _ _ (search handler_rules) (weaken_edited t) (λ _.
        Leads-then _ _ (edit_tag-IsRouted args t) (λ tagged.
          search
            (handler_rules, edit_domain-IsRouted, edit_transport-IsRouted, finish_edit-IsRouted)
            depth 9)))

  found-IsEdited :
      (tag : Bytes) (c : Config) (t : TunnelConfig)
      → IsRouted c
      → get_tunnel c tag ≡ some t
      → IsEdited t c
  unfolding get_tunnel
  found-IsEdited tag c t routed found =
      let named : t.tag ≡ tag = found_tag tag c.tunnels t found in
      record {
        routed = routed;
        there =
            ap (λ (k : Bytes). is_some (find_key tunnel_key k c.tunnels)) named ∙ ap is_some found;
      }

  edit_named-IsRouted :
      (args : Args) (tag : Bytes) (c : Config)
      → Leads (InMemory (IsRead c)) (InMemory IsRouted) (edit_named crypto message_of args tag c)
  unfolding edit_named on_option fail raise
  edit_named-IsRouted args tag c = elim (Option-cases (get_tunnel c tag)) [
    | inl missing ↦ rw missing (record { at = λ w h. record { holds = h.holds.routed } })
    | inr (t, found) ↦ rw found (record {
      at = λ w h. (edit_tunnel-IsRouted args t).at w (record {
        holds =
            found-IsEdited tag w.config t h.holds.routed
              (ap (λ (d : Config). get_tunnel d tag) h.holds.same ∙ found);
      });
    })
  ]

  picked-IsRouted :
      (args : Args) (c : Config)
      → Leads
          (InMemory (IsRead c))
          (InMemory IsRouted)
          (pick_tag crypto message_of args c >>= λ tag. edit_named crypto message_of args tag c)
  picked-IsRouted args c =
      Leads-bind _ _ (search pick_tag-InMemory) (λ w h. record { holds = h.holds.routed })
        (λ tag. edit_named-IsRouted args tag c)

  pub handle_tunnel_edit-IsRouted :
      (args : Args) → Keeps (InMemory IsRouted) (handle_tunnel_edit crypto message_of args)
  unfolding handle_tunnel_edit gets ◌>>=◌
  handle_tunnel_edit-IsRouted args = record {
    at = λ w h.
        (picked-IsRouted args w.config).at w
          (record { holds = record { same = refl; routed = h.holds } });
  }
