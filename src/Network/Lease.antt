-- ===== src/Network/Lease.antt =====
-- handleDhcpResponse of src/libc/network.cpp: the bytes that it reads, and its loops.
use mr_hak_os.Prelude.{
  ℕ, zero, suc, ◌+◌, ◌≤◌, ◌<◌, ◌≡◌, List, inl, inr, arith, ◌==◌, length, ◌^◌, Bool-cases, get_or,
}
use mr_hak_os.Network.Replies.{
  read_option, read_options, same_mac, apply_dhcp, handle_dhcp_response, Options, no_options, u16,
}
use mr_hak_os.Network.State.{Net}
use mr_hak_os.Network.Valid.{IsNet, clear-IsCache}
use mr_hak_os.Network.Packet.{
  Answers, return_if-Returns, Returns, returns, branch-Returns, byte_of-then, rd32-then,
  Returns-bind,
}
use mr_hak_os.Network.Responses.{places}

read_option-Answers :
    (opt len : ℕ) (p : List ℕ) (off : ℕ) (o : Options)
    → off + len ≤ length p
    → Answers (read_option opt len p off o)
unfolding read_option
read_option-Answers opt len p off o h =
    branch-Returns _ _ _ (λ c. byte_of-then p off _ (ground arith) (returns _ tt))
      (λ _.
        branch-Returns _ _ _ (λ c. rd32-then p off _ (ground arith) (returns _ tt))
          (λ _.
            branch-Returns _ _ _ (λ c. rd32-then p off _ (ground arith) (returns _ tt))
              (λ _.
                branch-Returns _ _ _ (λ c. rd32-then p off _ (ground arith) (returns _ tt))
                  (λ _.
                    branch-Returns _ _ _ (λ c. rd32-then p off _ (ground arith) (returns _ tt))
                      (λ _. returns _ tt)))))

read_options-Answers :
    (fuel : ℕ) (p : List ℕ) (off : ℕ) (o : Options)
    → length p < 2 ^ 16
    → off ≤ length p
    → length p < off + fuel
    → Answers (read_options fuel p off o)
unfolding read_options
read_options-Answers zero p off o h i f = absurd (omega arith)
read_options-Answers (suc fuel) p off o h i f =
    return_if-Returns _ _ _ (λ _. tt)
      (λ inside. byte_of-then p off _ (ground arith) (
        branch-Returns _ _ _
          (λ pad. read_options-Answers fuel p _ o h (ground arith) (ground arith))
          (λ more.
            return_if-Returns _ _ _ (λ _. tt)
              (λ _.
                return_if-Returns _ _ _ (λ _. tt)
                  (λ second. byte_of-then p _ _ (ground arith) (
                    return_if-Returns _ _ _ (λ _. tt)
                      (λ fits.
                        let at = u16 (off + 1) in
                        let step : at ≡ off + 1 = ground arith in
                        let (e, l) = places (length p) at (get_or p at 0) h second fits in
                        let behind : u16 (at + 1) + get_or p at 0 ≤ length p = ground arith in
                        Returns-bind (read_option-Answers _ _ p _ o behind) (λ o' _.
                          read_options-Answers fuel p _ o' h (omega arith) (omega arith)))))))))

same_mac-Answers : (n m : ℕ) (p mac : List ℕ) → 28 + m + n ≤ length p → Answers (same_mac n m p mac)
unfolding same_mac
same_mac-Answers zero m p mac h = returns _ tt
same_mac-Answers (suc n) m p mac h =
    byte_of-then p (28 + m) _ (omega arith)
      (return_if-Returns _ _ _ (λ _. tt) (λ same. same_mac-Answers n (m + 1) p mac (omega arith)))

apply_dhcp-IsNet : (yiaddr : ℕ) (o : Options) (n : Net) → IsNet n → IsNet (apply_dhcp yiaddr o n)
unfolding apply_dhcp
apply_dhcp-IsNet yiaddr o n v = elim (Bool-cases (o.msg_type == 2)) [
  | inl offer ↦ rw offer (record { cache = v.cache; stream = v.stream })
  | inr other ↦ elim (Bool-cases (o.msg_type == 5)) [
    | inl ack ↦ rw (other, ack) (record { cache = clear-IsCache; stream = v.stream })
    | inr none_of ↦ rw (other, none_of) v
  ]
]

-- No message of a DHCP server makes the parser read a byte outside of it, or follow its options for ever.
pub handle_dhcp_response-Returns :
    (p : List ℕ) (n : Net) → length p < 2 ^ 16 → IsNet n → Returns IsNet (handle_dhcp_response p n)
unfolding handle_dhcp_response
handle_dhcp_response-Returns p n h v =
    return_if-Returns _ _ _ (λ _. v)
      (λ long. byte_of-then p 0 _ (ground arith) (
        byte_of-then p 1 _ (ground arith) (
          byte_of-then p 2 _ (ground arith) (
            return_if-Returns _ _ _ (λ _. v)
              (λ _. rd32-then p 4 _ (ground arith) (
                return_if-Returns _ _ _ (λ _. v)
                  (λ _. Returns-bind (same_mac-Answers 6 0 p n.mac (ground arith)) (λ same _.
                    return_if-Returns _ _ _ (λ _. v)
                      (λ _. byte_of-then p 236 _ (ground arith) (
                        byte_of-then p 237 _ (ground arith) (
                          byte_of-then p 238 _ (ground arith) (
                            byte_of-then p 239 _ (ground arith) (
                              return_if-Returns _ _ _ (λ _. v)
                                (λ _. rd32-then p 16 _ (ground arith) (
                                  Returns-bind
                                    (read_options-Answers (length p + 1) p 240 no_options h
                                      (ground arith) (ground arith))
                                    (λ o _. returns _ (apply_dhcp-IsNet _ o n v)))))))))))))))))
