-- ===== src/Packet/Filter.antt =====
-- What `Filter` and `Subtract` select.
use yui_relayer.Base.{ℕ, ◌≡◌, true, false, List, [], ◌∷◌, inl, inr, All, contains, Bool-cases}
use yui_relayer.Packet.{PacketInfo, subtract, filter}

-- `Merged xs ys zs`: `zs` is an interleaving of `xs` and `ys`, so each element of `zs` stands in
-- exactly one of them, in its old order.
pub data Merged {ℓ} {A : Type ℓ} : List A → List A → List A → Type ℓ where
  done : Merged [] [] []
  left : (x : A) {xs ys zs : List A} → Merged xs ys zs → Merged (x ∷ xs) ys (x ∷ zs)
  right : (y : A) {xs ys zs : List A} → Merged xs ys zs → Merged xs (y ∷ ys) (y ∷ zs)

-- For every list of packets and of sequences: `Filter` and `Subtract` split the packets in two,
-- each part in its old order; every packet that `Filter` keeps has its sequence among `seqs`, and
-- no packet that `Subtract` keeps has.
pub filter-subtract :
    (ps : List PacketInfo) (seqs : List ℕ)
    → Merged (filter ps seqs) (subtract ps seqs) ps
      × All (λ p. contains seqs p.packet.sequence ≡ true) (filter ps seqs)
      × All (λ p. contains seqs p.packet.sequence ≡ false) (subtract ps seqs)
unfolding filter subtract
filter-subtract [] seqs = (done, tt, tt)
filter-subtract (p ∷ ps) seqs =
    let (m, kept, dropped) = filter-subtract ps seqs in
    elim (Bool-cases (contains seqs p.packet.sequence)) [
      | inl yes' ↦ rw yes' (left p m, (yes', kept), dropped)
      | inr no' ↦ rw no' (right p m, kept, (no', dropped))
    ]
