-- ===== src/Mgmt/Manager/Text.antt =====
-- mgmt/manager.cpp and stats.h: the text of the answers with numbers. A text is a list of pieces; a
-- comma that ends one is a piece of its own, as is every number.
use Prim.Native.String.{String}
use traffic_generator.Base.{
  append_assoc, append_nil, ℕ, ◌≡◌, refl, sym, ap, ◌∙◌, Bool, true, false, List, [], ◌∷◌, ◌++◌, map,
  if◌then◌else◌,
}
use traffic_generator.Put.Cycles.{to_micros}
use traffic_generator.Mgmt.Messages.{Stats, Entry, SummaryStats}

pub data Piece : Type 0 where
  text : String → Piece
  number : ℕ → Piece
  comma : Piece

abbrev pub Text : Type 0
Text = List Piece

-- `stats::visit`
abbrev pub visit_stats : Stats → List (String × ℕ)
visit_stats s =
    ("cnt_rx_pkts", s.cnt_rx_pkts)
    ∷ ("cnt_tx_pkts", s.cnt_tx_pkts)
    ∷ ("cnt_rx_bytes", s.cnt_rx_bytes)
    ∷ ("cnt_tx_bytes", s.cnt_tx_bytes)
    ∷ ("cnt_rx_pkts_qfull", s.cnt_rx_pkts_qfull)
    ∷ ("cnt_rx_pkts_nombuf", s.cnt_rx_pkts_nombuf)
    ∷ ("cnt_tx_pkts_qfull", s.cnt_tx_pkts_qfull)
    ∷ ("cnt_tx_pkts_nombuf", s.cnt_tx_pkts_nombuf)
    ∷ ("cnt_rx_pkts_err", s.cnt_rx_pkts_err)
    ∷ ("cnt_tx_pkts_err", s.cnt_tx_pkts_err)
    ∷ []

-- The pieces of a counter, without its comma.
abbrev pub member : String × ℕ → Text
member (name, val) = text "\"" ∷ text name ∷ text "\":" ∷ number val ∷ []

-- The last piece taken off.
pub pop_back : Text → Text
pop_back [] = []
pop_back (p ∷ []) = []
pop_back (p ∷ q ∷ ps) = p ∷ pop_back (q ∷ ps)

abbrev ends_in_comma : Text → Bool
ends_in_comma [] = false
ends_in_comma (comma ∷ []) = true
ends_in_comma (text s ∷ []) = false
ends_in_comma (number n ∷ []) = false
ends_in_comma (p ∷ q ∷ ps) = ends_in_comma (q ∷ ps)

-- What a loop that ends every text with a comma appends.
abbrev with_commas : List Text → Text → Text
with_commas [] body = body
with_commas (t ∷ ts) body = with_commas ts (body ++ (t ++ (comma ∷ [])))

-- The body of a response with stats.
pub stats_text : Stats → Text
unfolding pop_back
stats_text s =
    pop_back (with_commas (map member (visit_stats s)) (text "{\"result\": {" ∷ []))
    ++ (text "}}" ∷ [])

module _ (hz : ℕ) where
  abbrev pub entry_text : Entry → Text
  entry_text e =
      text "{"
      ∷ text "\"gen_idx\":"
      ∷ number e.gen_idx
      ∷ comma
      ∷ text "\"flow_idx\":"
      ∷ number e.flow_idx
      ∷ comma
      ∷ text "\"cnt_pkts\":"
      ∷ number e.cnt_pkts
      ∷ comma
      ∷ text "\"cnt_bytes\":"
      ∷ number e.cnt_bytes
      ∷ comma
      ∷ text "\"duration_usec\":"
      ∷ number (to_micros hz e.duration)
      ∷ text "}"
      ∷ []

  -- The body of a response with the stats of a stopped generation.
  pub summary_text : SummaryStats → Text
  unfolding pop_back
  summary_text s =
      let counters =
        pop_back (with_commas (map member (visit_stats s.summary)) (text "{\"result\": {" ∷ [])) in
      let body =
        with_commas (map entry_text s.detailed) (counters ++ (text "}, \"detailed\": [" ∷ [])) in
      (if ends_in_comma body then pop_back body else body) ++ (text "]}" ∷ [])

-- Texts with a comma between each and the next.
abbrev pub join : List Text → Text
join [] = []
join (t ∷ []) = t
join (t ∷ u ∷ ts) = t ++ (comma ∷ join (u ∷ ts))

with_commas-join :
    (t : Text) (ts : List Text) (body : Text)
    → with_commas (t ∷ ts) body ≡ (body ++ join (t ∷ ts)) ++ (comma ∷ [])
with_commas-join t [] body = sym (append_assoc body t (comma ∷ []))
with_commas-join t (u ∷ ts) body =
    with_commas-join u ts (body ++ (t ++ (comma ∷ [])))
    ∙ ap (λ s. s ++ (comma ∷ []))
        (append_assoc body (t ++ (comma ∷ [])) (join (u ∷ ts))
          ∙ ap (λ s. body ++ s) (append_assoc t (comma ∷ []) (join (u ∷ ts))))

pop_back-snoc : (s : Text) (p : Piece) → pop_back (s ++ (p ∷ [])) ≡ s
unfolding pop_back
pop_back-snoc [] p = refl
pop_back-snoc (q ∷ []) p = refl
pop_back-snoc (q ∷ r ∷ s) p = ap (λ t. q ∷ t) (pop_back-snoc (r ∷ s) p)

ends_in_comma-snoc : (s : Text) → ends_in_comma (s ++ (comma ∷ [])) ≡ true
ends_in_comma-snoc [] = refl
ends_in_comma-snoc (q ∷ []) = refl
ends_in_comma-snoc (q ∷ r ∷ s) = ends_in_comma-snoc (r ∷ s)

ends_in_text : (s : Text) (t : String) → ends_in_comma (s ++ (text t ∷ [])) ≡ false
ends_in_text [] t = refl
ends_in_text (q ∷ []) t = refl
ends_in_text (q ∷ r ∷ s) t = ends_in_text (r ∷ s) t

-- The loop's last comma goes if there is one.
without_last :
    (ts : List Text) (body : Text) (t : String)
    → (let s = with_commas ts (body ++ (text t ∷ [])) in if ends_in_comma s then pop_back s else s)
      ≡ (body ++ (text t ∷ [])) ++ join ts
without_last [] body t = rw (ends_in_text body t) (sym (append_nil (body ++ (text t ∷ []))))
without_last (u ∷ ts) body t =
    let s = (body ++ (text t ∷ [])) ++ join (u ∷ ts) in
    ap (λ r. if ends_in_comma r then pop_back r else r)
      (with_commas-join u ts (body ++ (text t ∷ [])))
    ∙ rw (ends_in_comma-snoc s) (pop_back-snoc s comma)

-- The body of an answer with stats is its ten counters, each by its name, with a comma between each
-- and the next and none after the last.
pub stats_text_lem :
    (s : Stats)
    → stats_text s
      ≡ ((text "{\"result\": {" ∷ []) ++ join (map member (visit_stats s))) ++ (text "}}" ∷ [])
unfolding stats_text
stats_text_lem s =
    ap (λ r. r ++ (text "}}" ∷ []))
      (pop_back-snoc ((text "{\"result\": {" ∷ []) ++ join (map member (visit_stats s))) comma)

-- The body of an answer to a stop is the counters and then the flows' entries, none or more, with a
-- comma between each and the next and none after the last.
pub summary_text_lem :
    (hz : ℕ) (s : SummaryStats)
    → summary_text hz s
      ≡ ((((text "{\"result\": {" ∷ []) ++ join (map member (visit_stats s.summary)))
            ++ (text "}, \"detailed\": [" ∷ []))
          ++ join (map (entry_text hz) s.detailed))
        ++ (text "]}" ∷ [])
unfolding summary_text
summary_text_lem hz s =
    ap (λ r. r ++ (text "]}" ∷ []))
      (without_last (map (entry_text hz) s.detailed)
        ((text "{\"result\": {" ∷ []) ++ join (map member (visit_stats s.summary)))
        "}, \"detailed\": [")
