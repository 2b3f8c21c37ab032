-- ===== src/Network/Responses.antt =====
-- handleDnsResponse of src/libc/network.cpp: the bytes that it reads, and its loops.
use mr_hak_os.Prelude.{
  ℕ, zero, suc, ◌+◌, ◌≤◌, ◌<◌, ◌≡◌, List, false, arith, ◌^◌, length, leb, ltb, get_or,
}
use mr_hak_os.Network.Replies.{
  skip_name, skip_labels, read_answers, handle_dns_response, skip_questions, u16,
}
use mr_hak_os.Network.State.{Dns}
use mr_hak_os.Network.Packet.{
  Answers, byte_of-then, return_if-Returns, returns, branch-Returns, Returns-bind, rd16-then,
  or_return-Returns, rd32-then,
}

-- The 16-bit places behind a byte inside of a packet, and behind the `n` bytes after that.
pub places :
    (size off n : ℕ)
    → size < 2 ^ 16
    → leb size off ≡ false
    → ltb size (u16 (off + 1) + n) ≡ false
    → (u16 (u16 (off + 1) + n) ≡ off + 1 + n) × (off + 1 + n ≤ size)
places size off n h inside fits =
    let step : u16 (off + 1) ≡ off + 1 = ground arith in
    let fit : off + 1 + n ≤ size = ground arith in (omega arith, fit)

skip_labels-Answers :
    (fuel : ℕ) (p : List ℕ) (off : ℕ)
    → length p < 2 ^ 16
    → off ≤ length p
    → length p < off + fuel
    → Answers (skip_labels fuel p off)
unfolding skip_labels
skip_labels-Answers zero p off h i f = absurd (omega arith)
skip_labels-Answers (suc fuel) p off h i f =
    return_if-Returns _ _ _ (λ _. tt)
      (λ inside. byte_of-then p off _ (ground arith) (
        return_if-Returns _ _ _ (λ _. tt)
          (λ more.
            return_if-Returns _ _ _ (λ _. tt)
              (λ fits.
                let (e, l) = places (length p) off (get_or p off 0) h inside (ground arith) in
                skip_labels-Answers fuel p _ h (omega arith) (omega arith)))))

-- Where the questions end.
skip_questions-Answers :
    (n : ℕ) (p : List ℕ) (off : ℕ)
    → length p < 2 ^ 16
    → off ≤ length p
    → Answers (skip_questions n p off)
unfolding skip_questions
skip_questions-Answers zero p off h i = returns _ tt
skip_questions-Answers (suc n) p off h i =
    Returns-bind (skip_labels-Answers (length p + 1) p off h i (omega arith)) (λ labels _.
      or_return-Returns labels _ _ tt (λ off' _.
        return_if-Returns _ _ _ (λ _. tt) (λ fits. skip_questions-Answers n p _ h (ground arith))))

skip_name-Answers :
    (p : List ℕ) (off : ℕ) → length p < 2 ^ 16 → off < length p → Answers (skip_name p off)
unfolding skip_name
skip_name-Answers p off h i = byte_of-then p off _ i (
    branch-Returns _ _ _ (λ compressed. return_if-Returns _ _ _ (λ _. tt) (λ _. returns _ tt))
      (λ plain.
        Returns-bind (skip_labels-Answers (length p + 1) p off h (omega arith) (omega arith))
          (λ labels _.
            or_return-Returns labels _ _ tt
              (λ off' _. return_if-Returns _ _ _ (λ _. tt) (λ _. returns _ tt)))))

read_answers-Answers :
    (n : ℕ) (p : List ℕ) (off : ℕ) (dns : Dns)
    → length p < 2 ^ 16
    → Answers (read_answers n p off dns)
unfolding read_answers
read_answers-Answers zero p off dns h = returns _ tt
read_answers-Answers (suc n) p off dns h =
    return_if-Returns _ _ _ (λ _. tt)
      (λ inside. Returns-bind (skip_name-Answers p off h (ground arith)) (λ name _.
        or_return-Returns name _ _ tt (λ at _.
          return_if-Returns _ _ _ (λ _. tt)
            (λ fixed. rd16-then p at _ (ground arith) (
              rd16-then p (at + 2) _ (ground arith) (
                rd16-then p (at + 8) _ (ground arith) (
                  return_if-Returns _ _ _ (λ _. tt)
                    (λ fits.
                      branch-Returns _ _ _
                        (λ wanted. rd32-then p (at + 10) _ (ground arith) (returns _ tt))
                        (λ other. read_answers-Answers n p _ dns h)))))))))

-- No answer of a DNS server makes the parser read a byte outside of it, or follow its labels for ever.
pub handle_dns_response-Answers :
    (p : List ℕ) (dns : Dns) → length p < 2 ^ 16 → Answers (handle_dns_response p dns)
unfolding handle_dns_response
handle_dns_response-Answers p dns h =
    return_if-Returns _ _ _ (λ _. tt)
      (λ long. rd16-then p 0 _ (ground arith) (
        rd16-then p 2 _ (ground arith) (
          rd16-then p 4 _ (ground arith) (
            rd16-then p 6 _ (ground arith) (
              return_if-Returns _ _ _ (λ _. tt)
                (λ ours.
                  Returns-bind (skip_questions-Answers _ p 12 h (ground arith)) (λ questions _.
                    or_return-Returns questions _ _ tt
                      (λ off _. read_answers-Answers _ p off dns h))))))))
