-- ===== src/Http/AccessPoint/Start.antt =====
-- The start of the access point: when it succeeds, and the wait for the interface.
use eerie_leap_rt.Common.{
  ℕ, zero, suc, ◌≤◌, ◌<◌, ◌≡◌, refl, sym, subst, ◌∙◌, ◌+◌, ◌%◌, List, [], ◌∷◌, codes, Bool, true,
  false, Option, none, some, arith, ◌↔◌, ◌⊎◌, inl, inr, Bool-cases,
}
use eerie_leap_rt.Http.AccessPoint.{
  Network, Event, ap_enable_result, ap_disable_result, ap_sta_connected, ap_sta_disconnected,
  Address, wait_up, retry_count, initialize, AccessPointConfig, security_none, dhcp_start,
  access_point_initialize, dhcpv4_server_initialize, with_addresses, enable_if, wait_if, configure,
  ap_config, net_event_wifi_mask,
}

module _ (n : Network) where
  open n use {World, Interface}

  -- The world after so many delays.
  unfoldable pub delays : ℕ → World → World
  delays zero w = w
  delays (suc k) w = delays k (n.sleep 500 w)

  polls-suc :
      (i : Interface) (w : World) (k : ℕ)
      → n.is_up i w ≡ false
      → ((j : ℕ) → j < k → n.is_up i (delays j (n.sleep 500 w)) ≡ false)
      → (j : ℕ) → j < suc k
      → n.is_up i (delays j w) ≡ false
  unfolding delays
  polls-suc i w k down polls zero h = down
  polls-suc i w k down polls (suc j) h = polls j (omega arith)

  wait_more {ℓ} : {P : Type ℓ} (rounds k : ℕ) → (k ≡ rounds) ⊎ P → (suc k ≡ suc rounds) ⊎ P
  wait_more rounds k (inl e) = inl (omega arith)
  wait_more rounds k (inr p) = inr p

  wait_less {ℓ} : {P : Type ℓ} (rounds k : ℕ) → (suc k ≡ suc rounds) ⊎ P → (k ≡ rounds) ⊎ P
  wait_less rounds k (inl e) = inl (omega arith)
  wait_less rounds k (inr p) = inr p

  -- The wait took `k` delays, at most as many as there are rounds: the interface was down at each
  -- poll before, and it is up then, unless the rounds are used up.
  pub record Waited (rounds : ℕ) (i : Interface) (w w' : World) : Type 0 where
    pub k : ℕ
    pub bound : k ≤ rounds
    pub ends : w' ≡ delays k w
    pub polls : (j : ℕ) → j < k → n.is_up i (delays j w) ≡ false
    pub last : (k ≡ rounds) ⊎ (n.is_up i (delays k w) ≡ true)

  wait_up-Waited :
      (rounds : ℕ) (i : Interface) (w : World) → Waited rounds i w (wait_up n rounds i w)
  unfolding wait_up delays
  wait_up-Waited zero i w = record {
    k = 0;
    bound = omega arith;
    ends = refl;
    polls = λ j h. absurd (omega arith);
    last = inl refl;
  }
  wait_up-Waited (suc rounds) i w = elim (Bool-cases (n.is_up i w)) [
    | inl up ↦ record {
      k = 0;
      bound = omega arith;
      ends = rw (up, wait_up);
      polls = λ j h. absurd (omega arith);
      last = inr up;
    }
    | inr down ↦
        let rest = wait_up-Waited rounds i (n.sleep 500 w) in
        record {
          k = suc rest.k;
          bound = let b = rest.bound in omega arith;
          ends = rw (down, wait_up) rest.ends;
          polls = polls-suc i w rest.k down rest.polls;
          last = wait_more rounds rest.k rest.last;
        }
  ]

  -- The delays of such a wait leave no choice.
  wait_up-delays :
      (rounds k : ℕ) (i : Interface) (w : World)
      → k ≤ rounds
      → ((j : ℕ) → j < k → n.is_up i (delays j w) ≡ false)
      → (k ≡ rounds) ⊎ (n.is_up i (delays k w) ≡ true)
      → wait_up n rounds i w ≡ delays k w
  unfolding wait_up delays
  wait_up-delays zero zero i w b polls last = refl
  wait_up-delays zero (suc k) i w b polls last = absurd (omega arith)
  wait_up-delays (suc rounds) zero i w b polls (inl e) = absurd (omega arith)
  wait_up-delays (suc rounds) zero i w b polls (inr up) = rw (up, wait_up) refl
  wait_up-delays (suc rounds) (suc k) i w b polls last =
      rw (polls 0 (omega arith), wait_up)
        (wait_up-delays rounds k i (n.sleep 500 w) (omega arith)
          (λ j h. polls (suc j) (omega arith)) (wait_less rounds k last))

  -- The tenth address behind the access point's own, on a byte.
  abbrev pub pool_of : Address → Address
  pool_of a = record {
    octet_0 = a.octet_0;
    octet_1 = a.octet_1;
    octet_2 = a.octet_2;
    octet_3 = (a.octet_3 + 10) % 256;
  }

  -- The events that the handler is called for.
  abbrev pub watched : List Event
  watched = ap_enable_result ∷ ap_disable_result ∷ ap_sta_connected ∷ ap_sta_disconnected ∷ []

  -- An open access point of the configured name.
  abbrev pub open_point : AccessPointConfig
  open_point = record { ssid = codes "EerieLeap"; psk = []; security = security_none }

  -- A start that succeeded: the interface is there, both addresses parse, the gateway, the address
  -- and the netmask are set, the DHCP server starts with the pool behind the address, and only then
  -- the access point is enabled, and the interface waited for, in ten rounds of 500 ms.
  pub record Started (w : World) (i : Interface) (w' : World) : Type 0 where
    pub addr : Address
    pub netmask : Address
    pub w1 : World
    pub w2 : World
    pub found : n.get_wifi_sap (n.add_event_callback watched w) ≡ some i
    pub addr_parsed : n.addr_pton (codes "192.168.4.1") ≡ some addr
    pub netmask_parsed : n.addr_pton (codes "255.255.255.0") ≡ some netmask
    pub served :
        let with_gw = n.set_gw i addr (n.add_event_callback watched w) in
        let with_addr = (n.addr_add i addr with_gw).1 in
        let with_netmask = (n.set_netmask i addr netmask with_addr).1 in
        n.dhcpv4_server_start i (pool_of addr) with_netmask ≡ (true, w1)
    pub enabled : n.ap_enable i open_point w1 ≡ (true, w2)
    pub waited : Waited 10 i w2 w'

  pub Started-wait_up :
      (w w' : World) (i : Interface) (s : Started w i w') → w' ≡ wait_up n retry_count i s.w2
  Started-wait_up w w' i s =
      let wait = s.waited in
      wait.ends ∙ sym (wait_up-delays 10 wait.k i s.w2 wait.bound wait.polls wait.last)

  with_addresses-eq-true :
      (p q : Option Address) (i : Interface) (w w' : World)
      → with_addresses n p q i w ≡ (true, w')
      → (addr : Address) × (netmask : Address) × (p ≡ some addr)
        × (q ≡ some netmask)
        × (configure n i addr netmask w ≡ (true, w'))
  unfolding with_addresses
  with_addresses-eq-true (some addr) (some netmask) i w w' h = (addr, netmask, refl, refl, h)
  with_addresses-eq-true (some addr) none i w w' h = cc
  with_addresses-eq-true none q i w w' h = cc

  enable_if-eq-true :
      (x : Bool × World) (i : Interface) (w' : World)
      → enable_if n x i ≡ (true, w')
      → (w : World) × (x ≡ (true, w)) × (n.ap_enable i ap_config w ≡ (true, w'))
  unfolding enable_if
  enable_if-eq-true (true, w) i w' h = (w, refl, h)
  enable_if-eq-true (false, w) i w' h = cc

  wait_if-eq-true :
      (x : Bool × World) (o : Option Interface) (w' : World)
      → wait_if n x o ≡ (true, w')
      → (w : World) × (x ≡ (true, w))
        × ((i : Interface) → o ≡ some i → w' ≡ wait_up n retry_count i w)
  unfolding wait_if
  wait_if-eq-true (true, w) (some i) w' h = (w, refl, λ j e. cc)
  wait_if-eq-true (true, w) none w' h = (w, refl, λ j e. absurd (cc))
  wait_if-eq-true (false, w) o w' h = cc

  access_point_initialize-eq-true :
      (o : Option Interface) (w w' : World)
      → access_point_initialize n o w ≡ (true, w')
      → (i : Interface) × (w1 : World) × (o ≡ some i)
        × (dhcpv4_server_initialize n i w ≡ (true, w1))
        × (n.ap_enable i ap_config w1 ≡ (true, w'))
  unfolding access_point_initialize
  access_point_initialize-eq-true none w w' h = cc
  access_point_initialize-eq-true (some i) w w' h =
      let (w1, e, f) = enable_if-eq-true (dhcpv4_server_initialize n i w) i w' h in
      (i, w1, refl, e, f)

  -- `Initialize` returns true exactly when there is an access point interface, both addresses parse,
  -- the DHCP server starts, behind the setting of the gateway, the address and the netmask and with a
  -- pool from ten addresses above, and then the open access point is enabled. It has waited 500 ms as
  -- long as the interface was down, but at most ten times, whether or not that came up then.
  pub initialize_iff :
      (w w' : World) → (initialize n w ≡ (true, w')) ↔ ((i : Interface) × Started w i w')
  unfolding initialize dhcpv4_server_initialize configure dhcp_start ap_config
  initialize_iff w w' = (there, back)
    where
      w0 : World
      w0 = n.add_event_callback net_event_wifi_mask w

      there : initialize n w ≡ (true, w') → (i : Interface) × Started w i w'
      there h =
          let o = n.get_wifi_sap w0 in
          let (w2, e, waits) = wait_if-eq-true (access_point_initialize n o w0) o w' h in
          let (i, w1, found, served, enabled) = access_point_initialize-eq-true o w0 w2 e in
          let (addr, netmask, a, m, conf) = with_addresses-eq-true _ _ i w0 w1 served in
          (
            i,
            record {
              addr = addr;
              netmask = netmask;
              w1 = w1;
              w2 = w2;
              found = found;
              addr_parsed = a;
              netmask_parsed = m;
              served = conf;
              enabled = enabled;
              waited = subst (Waited 10 i w2) (sym (waits i found)) (wait_up-Waited 10 i w2);
            },
          )

      back : (i : Interface) × Started w i w' → initialize n w ≡ (true, w')
      back (i, s) =
          rw (s.found, s.addr_parsed, s.netmask_parsed, s.served, s.enabled)
            (rw (Started-wait_up w w' i s))
