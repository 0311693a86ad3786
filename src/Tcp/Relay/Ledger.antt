-- ===== src/Tcp/Relay/Ledger.antt =====
-- What is relied on of `recv` and `send` for the loops of src/event/tcp.rs.
use tiny_port_mapper_rust.Common.Int.{pos, negsuc}
use tiny_port_mapper_rust.FdManager.{RawFd}
use tiny_port_mapper_rust.Kernel.{Kernel}
use tiny_port_mapper_rust.Common.{
  length, take, ℕ, zero, suc, ◌≤◌, ◌≡◌, refl, ap, List, [], ◌∷◌, ◌++◌, arith,
}

pub take-append_self {ℓ} :
    {A : Type ℓ} (xs ys : List A) (n : ℕ) → length xs ≡ n → take n (xs ++ ys) ≡ xs
take-append_self [] ys zero e = refl
take-append_self [] ys (suc n) e = absurd (omega arith)
take-append_self (x ∷ xs) ys zero e = absurd (omega arith)
take-append_self (x ∷ xs) ys (suc n) e = ap (◌∷◌ x) (take-append_self xs ys n (omega arith))

pub take-length {ℓ} : {A : Type ℓ} (xs : List A) → take (length xs) xs ≡ xs
take-length [] = refl
take-length (x ∷ xs) = ap (◌∷◌ x) (take-length xs)

-- The documented meaning of `recv` and `send` on a stream: `recv` hands over at most as many bytes
-- as asked, in order; `send` accepts a first part of what it is given; a failed call moves nothing.
pub record Ledger (k : Kernel) (my_fd other_fd : RawFd) : Type 0 where
  pub taken : k.State → List ℕ
  pub accepted : k.State → List ℕ
  pub recv_some :
      (s : k.State) (len n : ℕ)
      → (k.recv s my_fd len).1 ≡ pos n
      → (length (k.recv s my_fd len).2 ≡ n)
        × (taken (k.recv s my_fd len).0 ≡ taken s ++ (k.recv s my_fd len).2)
  pub recv_none :
      (s : k.State) (len n : ℕ)
      → (k.recv s my_fd len).1 ≡ negsuc n
      → taken (k.recv s my_fd len).0 ≡ taken s
  pub recv_accepted : (s : k.State) (len : ℕ) → accepted (k.recv s my_fd len).0 ≡ accepted s
  pub send_some :
      (s : k.State) (bytes : List ℕ) (n : ℕ)
      → (k.send s other_fd bytes).1 ≡ pos n
      → (n ≤ length bytes) × (accepted (k.send s other_fd bytes).0 ≡ accepted s ++ take n bytes)
  pub send_none :
      (s : k.State) (bytes : List ℕ) (n : ℕ)
      → (k.send s other_fd bytes).1 ≡ negsuc n
      → accepted (k.send s other_fd bytes).0 ≡ accepted s
  pub send_taken : (s : k.State) (bytes : List ℕ) → taken (k.send s other_fd bytes).0 ≡ taken s

-- The other socket has room: `send` takes all that it is given.
abbrev pub SendsAll : (k : Kernel) → RawFd → Type 0
SendsAll k other_fd =
    (s : k.State) (bytes : List ℕ) → (k.send s other_fd bytes).1 ≡ pos (length bytes)
