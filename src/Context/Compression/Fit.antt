-- ===== src/Context/Compression/Fit.antt =====
-- The end of the loop of `fit_messages` of sifter/src/aa_sifter/context/compression.py.
use aa.Prelude.{
  ℕ, zero, suc, ◌+◌, ◌/◌, ◌≤◌, ◌<◌, max, List, [], ◌∷◌, String, true, false, ◌||◌, none, some, ◌≡◌,
  ◌⊎◌, inl, inr, refl, arith, length, is_empty, leb, Bool-cases, Option-cases,
}
use aa.Prelude.Float.{Float}
use aa.Models.Provider.{Message}
use aa.Context.Compression.{
  estimate_tokens, total_tokens, largest, content_at, put_content, shrink, fit_loop, fit_messages,
  compress_messages, truncate,
}

above : (a b : ℕ) → leb a b ≡ false → b < a
above a b h = ground arith

least : (n : ℕ) → leb 0 n ≡ true
least n = ground arith

-- The place of the largest entry is in the list, and its tokens are the ones given beside it.
largest-content :
    (m : Message) (ms : List Message)
    → estimate_tokens (content_at (largest (m ∷ ms)).0 (m ∷ ms)) ≡ (largest (m ∷ ms)).1
unfolding largest content_at
largest-content m [] = rw (least (estimate_tokens m.content)) refl
largest-content m (n ∷ ns) =
    elim (Bool-cases (leb (largest (n ∷ ns)).1 (estimate_tokens m.content))) [
      | inl first ↦ rw first refl
      | inr later ↦ rw later (largest-content n ns)
    ]

put-total :
    (i : ℕ) (text : String) (ms : List Message)
    → i < length ms
    → total_tokens (put_content i text ms) + estimate_tokens (content_at i ms)
      ≡ total_tokens ms + estimate_tokens text
unfolding put_content content_at
put-total i text [] h = absurd (omega (arith, h))
put-total zero text (m ∷ ms) h = omega arith
put-total (suc i) text (m ∷ ms) h = omega (arith, put-total i text ms (omega (arith, h)))

largest-place : (m : Message) (ms : List Message) → (largest (m ∷ ms)).0 < length (m ∷ ms)
unfolding largest
largest-place m [] = rw (least (estimate_tokens m.content)) (omega arith)
largest-place m (n ∷ ns) = ground (arith, largest-place n ns)

put-less :
    (i : ℕ) (text : String) (ms smaller : List Message)
    → i < length ms
    → (n : ℕ) → estimate_tokens (content_at i ms) ≡ n
    → estimate_tokens text < n
    → some (put_content i text ms) ≡ some smaller
    → total_tokens smaller < total_tokens ms
put-less i text ms smaller h n e k same =
    let put : put_content i text ms ≡ smaller = cc same in
    rw⁻¹ put (omega (arith, e, k, put-total i text ms h))

module _ {F : Type 0} (fl : Float F) where
  -- A round that goes on lowers the total.
  shrink-total :
      (ms smaller : List Message)
      → shrink fl ms ≡ some smaller
      → total_tokens smaller < total_tokens ms
  unfolding shrink
  shrink-total [] smaller h = absurd (cc h)
  shrink-total (m ∷ ms) smaller h =
      let found = largest (m ∷ ms) in
      let reduced = truncate fl (content_at found.0 (m ∷ ms)) (max 1 (found.1 / 2)) in
      elim (Bool-cases (leb found.1 1)) [
        | inl small ↦ absurd (cc (rw small at h))
        | inr large ↦ elim (Bool-cases (leb found.1 (estimate_tokens reduced))) [
          | inl kept ↦ absurd (cc (rw (large, kept) at h))
          | inr less ↦
              let same : some (put_content found.0 reduced (m ∷ ms)) ≡ some smaller =
                rw (large, less) at h in
              put-less found.0 reduced (m ∷ ms) smaller (largest-place m ms) found.1
                (largest-content m ms) (above found.1 (estimate_tokens reduced) less) same
        ]
      ]

  -- The loop has ended: nothing is left to do, or the next round breaks it.
  abbrev pub HasEnded : List Message → ℕ → Type 0
  HasEnded ms max_tokens =
      ((is_empty ms || leb (total_tokens ms) max_tokens) ≡ true) ⊎ (shrink fl ms ≡ none)

  fit_loop-ends :
      (fuel : ℕ) (ms : List Message) (max_tokens : ℕ)
      → total_tokens ms ≤ fuel
      → HasEnded (fit_loop fl fuel ms max_tokens) max_tokens
        × (total_tokens (fit_loop fl fuel ms max_tokens) ≤ total_tokens ms)
  unfolding fit_loop
  fit_loop-ends zero ms max_tokens h = (inl (ground (arith, h)), omega arith)
  fit_loop-ends (suc fuel) ms max_tokens h =
      elim (Bool-cases (is_empty ms || leb (total_tokens ms) max_tokens)) [
        | inl fits ↦ rw fits (inl fits, omega arith)
        | inr over ↦ elim (Option-cases (shrink fl ms)) [
          | inl stuck ↦ rw (over, stuck) (inr stuck, omega arith)
          | inr (smaller, goes) ↦
              let rest =
                fit_loop-ends fuel smaller max_tokens
                  (omega (arith, h, shrink-total ms smaller goes)) in
              rw (over, goes) (rest.0, omega (arith, rest.1, shrink-total ms smaller goes))
        ]
      ]

  -- When `fit_messages` returns, its messages are within the limit or there are none, or the next round of
  -- its loop would break off: the largest of them cannot be shortened. The rounds that the model allows, one
  -- for each token, never cut the loop short, and the total of the tokens is at most that of the
  -- compacted messages.
  pub fit_messages-ends :
      (ms : List Message) (max_tokens keep_recent : ℕ)
      → HasEnded (fit_messages fl ms max_tokens keep_recent) max_tokens
        × (total_tokens (fit_messages fl ms max_tokens keep_recent)
            ≤ total_tokens (compress_messages ms max_tokens keep_recent))
  unfolding fit_messages
  fit_messages-ends ms max_tokens keep_recent =
      let compacted = compress_messages ms max_tokens keep_recent in
      elim (Bool-cases (leb (total_tokens compacted) max_tokens)) [
        | inl fits ↦ rw fits (inl (ground (arith, fits)), omega arith)
        | inr over ↦
            rw over (fit_loop-ends (total_tokens compacted) compacted max_tokens (omega arith))
      ]
