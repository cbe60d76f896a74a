-- ===== src/Gen/Flows/Load/Checked.antt =====
-- What the packets are that `load_pkts` returns.
use traffic_generator.Base.{
  length, ◌<◌, ℕ, suc, ◌+◌, ◌*◌, ◌%◌, ◌≤◌, ◌≡◌, refl, sym, ap, ◌∙◌, Bool, Option, none, some, List,
  [], ◌∷◌, ◌==◌, if◌then◌else◌, ◌⊎◌, inl, inr, ◌||◌, arith,
}
use traffic_generator.Base.Words.{add64, sub64, word}
use traffic_generator.Put.Cycles.{from_micros}
use traffic_generator.Gen.Ops.{Mbuf}
use traffic_generator.Gen.Flows.{Pkt, ether_hdr_len}
use traffic_generator.Gen.Flows.Load.{
  Captured, if_gap, or_first, time_pkts, stamp_of, next_stamp, LoadError, LoadConfig,
  ether_type_ipv4, ipv4_hdr_size, check_pkt, check_pkts, load_checked, load_pkts,
}

-- The time of packet number `k`: as it was captured, or so many gaps after the start.
abbrev pub time_of : Option ℕ → ℕ → ℕ → ℕ
time_of none k tstamp = tstamp
time_of (some gap) k tstamp = k * gap % word

-- What the next packet would be given.
abbrev stamp_at : Option ℕ → ℕ → ℕ
stamp_at none k = 0
stamp_at (some gap) k = k * gap % word

-- A packet due 100 milliseconds and the time since `first` after the event before.
pub record IsTimed (hz first time : ℕ) (c : Captured) (pkt : Pkt) : Type 0 where
  pub due : pkt.rel_tsc ≡ from_micros hz (sub64 (add64 if_gap time) first)
  pub same_mbuf : pkt.mbuf ≡ c.mbuf

time_pkts-length :
    (hz : ℕ) (ipg : Option ℕ) (t : ℕ) (prev : Option ℕ) (cs : List Captured)
    → length (time_pkts hz ipg t prev cs) ≡ length cs
unfolding time_pkts
time_pkts-length hz ipg t prev [] = refl
time_pkts-length hz ipg t prev (c ∷ cs) =
    ap suc (
      time_pkts-length hz ipg (next_stamp ipg t) (some (or_first prev (stamp_of ipg t c.tstamp)))
        cs)

module _ (native_to_big big_to_native : ℕ → ℕ) (cfg : LoadConfig) where
  -- What is changed of a packet by its direction: the Ethernet addresses, and the client's port of a
  -- TCP or UDP packet, if one is asked for. All else stays.
  abbrev pub readdressed : Bool → Mbuf → Mbuf
  readdressed fc m = record m {
    ether_src = if fc then cfg.cln_ether_addr else cfg.srv_ether_addr;
    ether_dst = if fc then cfg.srv_ether_addr else cfg.cln_ether_addr;
  }

  abbrev pub with_port : Option ℕ → Bool → Mbuf → Mbuf
  with_port none fc m = m
  with_port (some port) fc m =
      if (m.next_proto_id == 6) || (m.next_proto_id == 17)
      then record m {
        src_port = if fc then native_to_big port else m.src_port;
        dst_port = if fc then m.dst_port else native_to_big port;
      }
      else m

  -- A packet that was verified: an IPv4 packet with its headers in the first segment. It comes
  -- from the client if its source is the client's, and gets the addresses of its direction.
  pub record IsChecked (cln : ℕ) (pkt out : Pkt) : Type 0 where
    pub long : ether_hdr_len + ipv4_hdr_size ≤ pkt.mbuf.data_len
    pub ipv4 : big_to_native pkt.mbuf.ether_type ≡ ether_type_ipv4
    pub from_cln : out.from_cln ≡ (cln == pkt.mbuf.ether_src)
    pub ether_src :
        out.mbuf.ether_src ≡ (if out.from_cln then cfg.cln_ether_addr else cfg.srv_ether_addr)
    pub ether_dst :
        out.mbuf.ether_dst ≡ (if out.from_cln then cfg.srv_ether_addr else cfg.cln_ether_addr)
    pub same_time : out.rel_tsc ≡ pkt.rel_tsc
    pub mbuf : out.mbuf ≡ with_port cfg.cln_port out.from_cln (readdressed out.from_cln pkt.mbuf)

  -- The switch on the protocol changes the ports at most.
  record Kept (pkt out : Pkt) : Type 0 where
    from_cln : out.from_cln ≡ pkt.from_cln
    ether_src : out.mbuf.ether_src ≡ pkt.mbuf.ether_src
    ether_dst : out.mbuf.ether_dst ≡ pkt.mbuf.ether_dst
    same_time : out.rel_tsc ≡ pkt.rel_tsc

  inr-injective : {A : Type 0} (a b : A) → ◌≡◌ {A = LoadError ⊎ A} (inr a) (inr b) → a ≡ b
  inr-injective a b e = ap (λ r. elim r [ inl _ ↦ a | inr c ↦ c ]) e

  -- Result cases of the two parts of a round.
  check_pkts-next :
      (cln : Option ℕ) (pkt : Pkt) (pkts outs : List Pkt)
      → check_pkts native_to_big big_to_native cfg cln (pkt ∷ pkts) ≡ inr outs
      → (out : Pkt) × (rest : List Pkt) × (check_pkt native_to_big big_to_native cfg
            (or_first cln pkt.mbuf.ether_src)
            pkt
          ≡ inr out)
        × (check_pkts native_to_big big_to_native cfg (some (or_first cln pkt.mbuf.ether_src)) pkts
            ≡ inr rest)
        × (out ∷ rest ≡ outs)
  unfolding check_pkts
  check_pkts-next cln pkt pkts outs h = parts _ _ h
    where
      parts :
          (r : LoadError ⊎ Pkt) (rs : LoadError ⊎ List Pkt)
          → ◌≡◌ {A = LoadError ⊎ List Pkt}
              (elim r [
                | inl e ↦ inl e
                | inr out ↦ elim rs [ inl e ↦ inl e | inr outs ↦ inr (out ∷ outs) ]
              ])
              (inr outs)
          → (out : Pkt) × (rest : List Pkt) × (r ≡ inr out) × (rs ≡ inr rest) × (out ∷ rest ≡ outs)
      parts (inl e) rs k = cc
      parts (inr out) (inl e) k = cc
      parts (inr out) (inr rest) k = (out, rest, refl, refl, inr-injective (out ∷ rest) outs k)

  check_pkts-length :
      (cln : Option ℕ) (pkts outs : List Pkt)
      → check_pkts native_to_big big_to_native cfg cln pkts ≡ inr outs
      → length outs ≡ length pkts
  unfolding check_pkts
  check_pkts-length cln [] outs h = ap length (sym (inr-injective [] outs h))
  check_pkts-length cln (p ∷ pkts) outs h =
      let (_, rest, _, h', same) = check_pkts-next cln p pkts outs h in
      ap length (sym same) ∙ ap suc (check_pkts-length _ pkts rest h')

  -- A packet that is loaded, from number `k` of the capture whose first is `c0`.
  pub record IsLoaded (hz : ℕ) (ipg : Option ℕ) (c0 : Captured) (k : ℕ) (c : Captured) (out : Pkt)
      : Type 0 where
    pub due :
        out.rel_tsc
        ≡ from_micros hz (sub64 (add64 if_gap (time_of ipg k c.tstamp)) (time_of ipg 0 c0.tstamp))
    pub long : ether_hdr_len + ipv4_hdr_size ≤ c.mbuf.data_len
    pub ipv4 : big_to_native c.mbuf.ether_type ≡ ether_type_ipv4
    pub from_cln : out.from_cln ≡ (c0.mbuf.ether_src == c.mbuf.ether_src)
    pub ether_src :
        out.mbuf.ether_src ≡ (if out.from_cln then cfg.cln_ether_addr else cfg.srv_ether_addr)
    pub ether_dst :
        out.mbuf.ether_dst ≡ (if out.from_cln then cfg.srv_ether_addr else cfg.cln_ether_addr)
    pub mbuf : out.mbuf ≡ with_port cfg.cln_port out.from_cln (readdressed out.from_cln c.mbuf)

-- The packets that are loaded are as many as were captured, and one at least.
pub load_pkts-length :
    (hz : ℕ) (native_to_big big_to_native : ℕ → ℕ) (cfg : LoadConfig) (ipg : Option ℕ)
    (cs : List Captured) (outs : List Pkt)
    → load_pkts hz native_to_big big_to_native cfg ipg cs ≡ inr outs
    → (length outs ≡ length cs) × (0 < length outs)
unfolding load_pkts load_checked time_pkts
load_pkts-length hz n b cfg ipg [] outs h = cc
load_pkts-length hz n b cfg ipg (c ∷ cs) outs h =
    let e : length outs ≡ length (c ∷ cs) =
      check_pkts-length n b cfg none (time_pkts hz ipg 0 none (c ∷ cs)) outs h
      ∙ time_pkts-length hz ipg 0 none (c ∷ cs) in
    (e, omega (arith, e))
