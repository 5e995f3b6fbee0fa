-- ===== src/Acceptor/Accepting.antt =====
-- What becomes of the connections that are accepted, and of the errors.
use netfish.Prelude.{
  Outcome-cases, inl, inr, ℕ, ◌≡◌, refl, sym, ap, ◌∙◌, true, List, [], ◌∷◌, ◌++◌, append_assoc,
  append-nil, Outcome, ok, err, fatal, ◌>>=◌, arith,
}
use netfish.Sockets.{
  Inet, SockaddrIn, Errno, eagain, econnaborted, eintr, eproto, eperm, emfile, Accept4, connection,
  refused, check_errno,
}
use netfish.InetAddress.{InetAddress}
use netfish.Acceptor.{Acceptor, accepted, handle_read}

-- One event for each answer of `accept4`, in the loop's thread.
pub accept_all : Inet → List Accept4 → Acceptor → Outcome Acceptor
accept_all net [] a = ok a
accept_all net (x ∷ xs) a = handle_read net true x a >>= accept_all net xs

-- The errors that an accept may meet and go on.
abbrev pub Passes : Errno → Type 0
Passes eagain = Unit {0}
Passes econnaborted = Unit {0}
Passes eintr = Unit {0}
Passes eproto = Unit {0}
Passes eperm = Unit {0}
Passes emfile = Unit {0}
Passes _ = ⊥

abbrev pub AllPass : List Accept4 → Type 0
AllPass [] = Unit {0}
AllPass (connection fd peer ∷ xs) = AllPass xs
AllPass (refused e ∷ xs) = Passes e × AllPass xs

unfoldable pub connections : List Accept4 → List (ℕ × InetAddress)
connections [] = []
connections (connection fd peer ∷ xs) = (fd, peer) ∷ connections xs
connections (refused e ∷ xs) = connections xs

check_errno_pass : (e : Errno) → Passes e → check_errno e ≡ ok tt
unfolding check_errno
check_errno_pass eagain h = refl
check_errno_pass econnaborted h = refl
check_errno_pass eintr h = refl
check_errno_pass eproto h = refl
check_errno_pass eperm h = refl
check_errno_pass emfile h = refl
check_errno_pass e h = elim h [ ]

check_errno_fail : (e : Errno) → (Passes e → ⊥) → check_errno e ≡ err fatal
unfolding check_errno
check_errno_fail eagain h = absurd (h tt)
check_errno_fail econnaborted h = absurd (h tt)
check_errno_fail eintr h = absurd (h tt)
check_errno_fail eproto h = absurd (h tt)
check_errno_fail eperm h = absurd (h tt)
check_errno_fail emfile h = absurd (h tt)
check_errno_fail e h = refl

handle_read-refused :
    (net : Inet) (e : Errno) (a : Acceptor)
    → handle_read net true (refused e) a ≡ (check_errno e >>= λ _. ok a)
unfolding handle_read accepted
handle_read-refused net e a = elim (Outcome-cases (check_errno e)) [
  | inl (u, h) ↦ rw h refl
  | inr (f, h) ↦ rw h refl
]

-- The acceptor that has handed these on.
abbrev pub handing_on : List (ℕ × InetAddress) → Acceptor → Acceptor
handing_on cs a = record a { handed_on = a.handed_on ++ cs }

handle_read-connection :
    (net : Inet) (fd : ℕ) (peer : SockaddrIn) (a : Acceptor)
    → a.new_connection_callback ≡ true
    → handle_read net true (connection fd peer) a ≡ ok (handing_on ((fd, peer) ∷ []) a)
unfolding handle_read accepted
handle_read-connection net fd peer a h = ground (arith, h)

accept_all-append :
    (net : Inet) (xs zs : List Accept4) (a : Acceptor)
    → a.new_connection_callback ≡ true
    → AllPass xs
    → accept_all net (xs ++ zs) a ≡ accept_all net zs (handing_on (connections xs) a)
unfolding accept_all connections
accept_all-append net [] zs a h p =
    λ i. accept_all net zs (record a { handed_on = sym (append-nil a.handed_on) i })
accept_all-append net (connection fd peer ∷ xs) zs a h p =
    ap (λ o. o >>= accept_all net (xs ++ zs)) (handle_read-connection net fd peer a h)
    ∙ accept_all-append net xs zs (handing_on ((fd, peer) ∷ []) a) h p
    ∙ (λ i.
        accept_all net zs
          (record a { handed_on = append_assoc a.handed_on ((fd, peer) ∷ []) (connections xs) i }))
accept_all-append net (refused e ∷ xs) zs a h (p, ps) =
    ap (λ o. o >>= accept_all net (xs ++ zs))
      (handle_read-refused net e a ∙ ap (λ o. o >>= λ _. ok a) (check_errno_pass e p))
    ∙ accept_all-append net xs zs a h ps

-- With the callback set: over any connections and errors that pass, every connection that `accept4`
-- answers is handed to the callback with its peer's address, in order, none is closed, and the errors
-- change nothing; and any other error, one that the network reports among them, ends the process,
-- whatever came before it and would come after.
pub accept_all_lem :
    (net : Inet) (xs : List Accept4) (a : Acceptor)
    → a.new_connection_callback ≡ true
    → AllPass xs
    → (accept_all net xs a ≡ ok (handing_on (connections xs) a))
      × ((e : Errno) (ys : List Accept4)
          → (Passes e → ⊥)
          → accept_all net (xs ++ (refused e ∷ ys)) a ≡ err fatal)
unfolding accept_all
accept_all_lem net xs a h p = (
  ap (λ l. accept_all net l a) (sym (append-nil xs)) ∙ accept_all-append net xs [] a h p,
  λ e ys f.
      accept_all-append net xs (refused e ∷ ys) a h p
      ∙ ap (λ o. o >>= accept_all net ys)
          (handle_read-refused net e (handing_on (connections xs) a)
            ∙ ap (λ o. o >>= λ _. ok (handing_on (connections xs) a)) (check_errno_fail e f)),
)
