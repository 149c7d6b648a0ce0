-- ===== src/Packet/Store.antt =====
-- A write to a history through the pointer that a lookup returned.
use iftopcolor.Shared.{
  ℕ, ◌≤◌, ◌≡◌, refl, false, [], ◌∷◌, flatten, some, ◌==◌, Bool-cases, inl, inr, count,
}
use iftopcolor.Hash.{Buckets, addrs, hash_find}
use iftopcolor.Hash.Place.{IsTable}
use iftopcolor.Hash.Replace.{IsMap}
use iftopcolor.Hash.Mapped.{map_chain, map_recs, map-map_recs, map_recs-IsMap}
use iftopcolor.Hash.Overwrite.{updated, hash_find-updated_self, hash_find-updated_other}
use iftopcolor.AddrHash.{AddrPair}
use iftopcolor.AddrHash.Keys.{addr_fns}
use iftopcolor.History.{History, HistRef, FlowNode}
use iftopcolor.History.Step.{FlowChain, items}
use iftopcolor.Packet.Defs.{write_item, write_hist}

abbrev pub FlowTable : Type 0
FlowTable = Buckets AddrPair HistRef

module _ (i : ℕ) (h : History) where
  abbrev written : HistRef → HistRef
  written = updated (λ r. r.item) i (λ r. record r { hist = h })

  write_item-map_chain : (c : FlowChain) → write_item i h c ≡ map_chain written c
  unfolding write_item map_chain
  write_item-map_chain [] = refl
  write_item-map_chain (n ∷ c) = elim (Bool-cases (n.rec.item == i)) [
    | inl e ↦ rw (e, write_item-map_chain c) refl
    | inr e ↦ rw (e, write_item-map_chain c) refl
  ]

  write_hist-map_recs : (t : FlowTable) → write_hist i h t ≡ map_recs written t
  unfolding write_hist map_recs
  write_hist-map_recs [] = refl
  write_hist-map_recs (c ∷ t) = rw (write_item-map_chain c, write_hist-map_recs t) refl

  pub addrs-write_hist : (t : FlowTable) → addrs (flatten (write_hist i h t)) ≡ addrs (flatten t)
  addrs-write_hist t = rw (write_hist-map_recs t) (map-map_recs written (λ n. n.addr) t (λ n. refl))

  pub items-write_hist : (t : FlowTable) → items (flatten (write_hist i h t)) ≡ items (flatten t)
  items-write_hist t =
      rw (write_hist-map_recs t) (map-map_recs written (λ n. n.rec.item) t (λ n. same n))
    where
      same : (n : FlowNode) → (written n.rec).item ≡ n.rec.item
      same n = elim (Bool-cases (n.rec.item == i)) [ inl e ↦ rw e refl | inr e ↦ rw e refl ]

  pub write_hist-IsMap : (t : FlowTable) → IsMap t → IsMap (write_hist i h t)
  write_hist-IsMap t v = rw (write_hist-map_recs t) (map_recs-IsMap written t v)

-- A lookup of another key than that of the flow that is written to.
pub hash_find-write_hist_other :
    (t : FlowTable) (k q : AddrPair) (r : HistRef) (h : History)
    → IsTable t
    → ((a : ℕ) → count a (items (flatten t)) ≤ 1)
    → hash_find t k ≡ some r
    → addr_fns.compare k q ≡ false
    → hash_find (write_hist r.item h t) q ≡ hash_find t q
hash_find-write_hist_other t k q r h v once e ne =
    rw (write_hist-map_recs r.item h t)
      (hash_find-updated_other (λ s. s.item) t k q r (λ s. record s { hist = h }) v once e ne)

pub hash_find-write_hist_self :
    (t : FlowTable) (k : AddrPair) (r : HistRef) (h : History)
    → hash_find t k ≡ some r
    → hash_find (write_hist r.item h t) k ≡ some (record r { hist = h })
hash_find-write_hist_self t k r h e =
    rw (write_hist-map_recs r.item h t)
      (hash_find-updated_self (λ s. s.item) t k r (λ s. record s { hist = h }) e)
