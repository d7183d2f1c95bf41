-- ===== src/Daemon/Inventory.antt =====
-- The inventory that the daemon fills (roles/msp_broker/files/broker/daemon.py).
use msp_fleet_public.Base.{
  String, Bool, true, false, not, subst, ◌&&◌, ◌≡◌, refl, List, [], ◌∷◌, ◌++◌, ◌==◌, all, map,
  arith, eq_refl,
}
use msp_fleet_public.Adapter.Guests.{Guest, guest_entry, node_entry, survey}
use msp_fleet_public.Adapter.Remote.{Runner}
use msp_fleet_public.Broker.{World}
use msp_fleet_public.Broker.Actions.{on_host}
use msp_fleet_public.Config.ClientConf.{load_client}
use msp_fleet_public.Daemon.{
  Setup, is_same_client, service_of, survey_if, store_targets, seed_inventory, sync_inventory,
  build_service,
}
use msp_fleet_public.Daemon.Seed.{
  Seed, SeedFile, seed_target, seed_targets, seed_list, clean_entries, seed_rows,
}
use msp_fleet_public.Config.{Json}
use msp_fleet_public.Exec.{Exec, pure, refuse_if, ◌>>◌}
use msp_fleet_public.Exec.Keeps.{keeps_rules}
use msp_fleet_public.Exec.Rules.{Post, Triple, Keeps, Triple-lift, Triple-bind, Triple-pure}
use msp_fleet_public.Failure.{Result, ok, err, bind-eq-ok, clients_disagree}
use msp_fleet_public.Plan.{Client, Target}
use msp_fleet_public.Platform.{Platform}
use msp_fleet_public.Policy.{Policy, is_enabled}
use msp_fleet_public.Config.PolicyView.{policy_of}
use msp_fleet_public.Store.{replace, inventory_upsert}

-- The rows are of the client, and of its site.
unfoldable pub all_own : Client → List Target → Bool
all_own client l = all (λ t. t.client_id == client.client_id && t.site_id == client.site_id) l

module _ (client : Client) where
  all_own-replace :
      (t : Target) (l : List Target)
      → (t.client_id == client.client_id && t.site_id == client.site_id) ≡ true
      → all_own client l ≡ true
      → all_own client (replace (λ u. u.id) t l) ≡ true
  unfolding all_own replace
  all_own-replace t [] e h = ground arith
  all_own-replace t (u ∷ l) e h = ground (arith, all_own-replace t l e)

  all_own-inventory_upsert :
      (ts l : List Target)
      → all_own client ts ≡ true
      → all_own client l ≡ true
      → all_own client (inventory_upsert ts l) ≡ true
  unfolding inventory_upsert all_own
  all_own-inventory_upsert [] l e h = h
  all_own-inventory_upsert (t ∷ ts) l e h =
      all_own-inventory_upsert ts _ (ground arith) (all_own-replace t l (ground arith) h)

  seed_target-own :
      (json : Json) (e : Seed) (t : Target)
      → seed_target json client e ≡ ok t
      → (t.client_id == client.client_id && t.site_id == client.site_id) ≡ true
  unfolding seed_target
  seed_target-own json e t h = ground (arith, eq_refl client.client_id, eq_refl client.site_id)

  all_own-seed_targets :
      (json : Json) (es : List Seed) (ts : List Target)
      → seed_targets json client es ≡ ok ts
      → all_own client ts ≡ true
  unfolding seed_targets all_own
  all_own-seed_targets json [] ts h = ground arith
  all_own-seed_targets json (e ∷ es) ts h =
      let (t, made, h₁) = bind-eq-ok (seed_target json client e) _ ts h in
      let (us, more, h₂) = bind-eq-ok (seed_targets json client es) _ ts h₁ in
      ground (arith, seed_target-own json e t made, all_own-seed_targets json es us more)

  all_own-seed_rows :
      (json : Json) (file : SeedFile) (ts : List Target)
      → seed_rows json client file ≡ ok ts
      → all_own client ts ≡ true
  unfolding seed_rows all_own
  all_own-seed_rows json SeedFile.missing ts h = ground arith
  all_own-seed_rows json SeedFile.unreadable ts h = cc
  all_own-seed_rows json (SeedFile.content text) ts h =
      let (vs, listed, h₁) = bind-eq-ok (seed_list json (json.loads text)) _ ts h in
      let (es, clean, h₂) = bind-eq-ok (clean_entries json vs) _ ts h₁ in
      all_own-seed_targets json es ts h₂

  all_own-guests :
      (kind : String) (gs : List Guest) (ts : List Target)
      → all_own client ts ≡ true
      → all_own client (map (guest_entry client kind) gs ++ ts) ≡ true
  unfolding all_own guest_entry
  all_own-guests kind [] ts h = h
  all_own-guests kind (g ∷ gs) ts h =
      rw (eq_refl client.client_id, eq_refl client.site_id) (all_own-guests kind gs ts h)

  all_own-entries :
      (kind : String) (gs : List Guest) → all_own client (map (guest_entry client kind) gs) ≡ true
  unfolding all_own guest_entry
  all_own-entries kind [] = refl
  all_own-entries kind (g ∷ gs) =
      rw (eq_refl client.client_id, eq_refl client.site_id) (all_own-entries kind gs)

  -- the whole survey: the host and its guests
  all_own-surveyed :
      (p : Platform) (name : String) (vms cts : List Guest)
      → all_own client (
          node_entry p client name ∷ map (guest_entry client "vm") vms
          ++ map (guest_entry client "ct") cts)
        ≡ true
  unfolding all_own node_entry
  all_own-surveyed p name vms cts =
      rw (eq_refl client.client_id, eq_refl client.site_id)
        (all_own-guests "vm" vms _ (all_own-entries "ct" cts))

module _ {H : Type 0} (client : Client) where
  -- The inventory is the client's.
  record Own (w : World H) : Type 0 where
    pub own : all_own client w.inventory ≡ true

  Anything : H → Type 0
  Anything h = Unit {0}

  store_targets-Own : (ts : List Target) → all_own client ts ≡ true → Keeps Own (store_targets ts)
  unfolding store_targets
  store_targets-Own ts e = record {
    at = λ w h. record { own = all_own-inventory_upsert client ts w.inventory e h.own };
  }

  seed_inventory-Own : (json : Json) (file : SeedFile) → Keeps Own (seed_inventory json client file)
  unfolding seed_inventory
  seed_inventory-Own json file =
      Triple-lift _ _ (λ w h. h)
        λ ts e. store_targets-Own ts (all_own-seed_rows client json file ts e)

  always : {A : Type 0} (r : Result A × H) → Post (λ _. Anything) Anything r
  unfolding Anything
  always (ok a, h) = tt
  always (err e, h) = tt

  trivial : {A : Type 0} (m : Exec H A) → Triple Anything m (λ _. Anything) Anything
  trivial m = record { at = λ h u. always (m h) }

  -- the rows that the survey returns
  survey-own :
      (p : Platform) (runner : Runner H)
      → Triple Anything (survey p runner client) (λ ts h. all_own client ts ≡ true) Anything
  unfolding survey Anything
  survey-own p runner = Triple-bind _ _ (trivial _) λ qm. Triple-bind _ _ (trivial _) λ pct.
      Triple-bind _ _ (trivial _) λ status. Triple-pure _ λ h u. all_own-surveyed client p _ _ _

  called :
      {A : Type 0} (Q : A → Type 0) (r : Result A × H) (w : World H)
      → Own w
      → Post (λ a h. Q a) Anything r
      → Post (λ a v. Own v × Q a) Own (r.0, record w { host = r.1 })
  called Q (ok a, h) w o q = (record { own = o.own }, q)
  called Q (err e, h) w o q = record { own = o.own }

  sync_inventory-Own : (s : Setup H) → Keeps Own (sync_inventory s client)
  unfolding sync_inventory on_host Anything
  sync_inventory-Own s =
      Triple-bind _ store_targets
        (record {
          at = λ w o.
              called (λ ts. all_own client ts ≡ true) _ w o
                ((survey-own s.platform s.runner).at w.host tt);
        })
        λ ts. record { at = λ w o. (store_targets-Own ts o.1).at w o.0 }

  survey_if-Own : (on : Bool) (s : Setup H) → Keeps Own (survey_if on s client)
  survey_if-Own true s = search (keeps_rules, sync_inventory-Own)
  survey_if-Own false s = search keeps_rules

  loaded :
      (s : Setup H) (c : Client)
      → load_client s.client_file ≡ ok client
      → load_client s.client_file ≡ ok c
      → client ≡ c
  loaded s c e f = cc

  rest-Own :
      (s : Setup H) (c : Client) (policy : Policy)
      → client ≡ c
      → Keeps Own (
          refuse_if (not (is_same_client c policy.client_id)) clients_disagree
          >> (seed_inventory s.json c s.inventory_seed
              >> (survey_if (is_enabled policy "proxmox") s c >> pure (service_of s c policy))))
  rest-Own s c policy e =
      subst
        (λ (d : Client). Keeps Own (
          refuse_if (not (is_same_client d policy.client_id)) clients_disagree
          >> (seed_inventory s.json d s.inventory_seed
              >> (survey_if (is_enabled policy "proxmox") s d >> pure (service_of s d policy)))))
        e (search (keeps_rules, seed_inventory-Own, survey_if-Own))

  build_service-Own :
      (s : Setup H) → load_client s.client_file ≡ ok client → Keeps Own (build_service s)
  unfolding build_service
  build_service-Own s found =
      Triple-lift _ _ (λ w o. o)
        λ fields e.
          Triple-lift _ _ (λ w o. o) λ c f. rest-Own s c (policy_of fields) (loaded s c found f)

  first : {A : Type 0} (r : Result A × World H) → Post (λ _. Own) Own r → Own r.1
  first (ok a, w) o = o
  first (err e, w) o = o

  -- Whatever the seed and the host hold, and whether the service is built or not: if the inventory
  -- had rows of the configured client and site only, then so it has afterwards.
  pub all_own-build_service :
      (s : Setup H) (w : World H)
      → load_client s.client_file ≡ ok client
      → all_own client w.inventory ≡ true
      → all_own client (build_service s w).1.inventory ≡ true
  all_own-build_service s w found own =
      (first _ ((build_service-Own s found).at w (record { own = own }))).own
