-- ===== src/TextCalls/Echo.antt =====
-- What a program reads from the keyboard and prints again.
use os_project2_nach_os.Base.{
  ℕ, zero, suc, ◌+◌, ◌-◌, ◌≤◌, ◌<◌, ◌≡◌, refl, ap, ◌∙◌, false, List, [], ◌∷◌, ◌++◌, some, ok,
  length, take, replicate, ◌==◌, arith,
}
use os_project2_nach_os.Console.Lines.{IsPlain, read-plain}
use os_project2_nach_os.UserMemory.{write_byte, string_at, user2system, system2user}
use os_project2_nach_os.UserMemory.RoundTrip.{IsText, write_byte_self, write_byte_other}
use os_project2_nach_os.FileCalls.{CallState}
use os_project2_nach_os.TextCalls.{handle_read_string, handle_print_string, print_limit}

-- User memory with a text at an address and a 0 behind it, and elsewhere as before.
pub record Holds (user : ℕ → ℕ) (addr : ℕ) (text : List ℕ) (user' : ℕ → ℕ) : Type 0 where
  pub reads : (limit : ℕ) → length text ≤ limit → string_at user' addr limit ≡ text
  pub below : (a : ℕ) → a < addr → user' a ≡ user a
  pub above : (a : ℕ) → addr + length text < a → user' a ≡ user a

stops_at_zero : (user : ℕ → ℕ) (addr limit : ℕ) → user addr ≡ 0 → string_at user addr limit ≡ []
unfolding string_at
stops_at_zero user addr zero at = refl
stops_at_zero user addr (suc limit) at = rw at refl

reads_on :
    (user : ℕ → ℕ) (addr c : ℕ) (text : List ℕ)
    → (c == 0) ≡ false
    → user addr ≡ c
    → ((limit : ℕ) → length text ≤ limit → string_at user (addr + 1) limit ≡ text)
    → (limit : ℕ) → suc (length text) ≤ limit
    → string_at user addr limit ≡ c ∷ text
unfolding string_at
reads_on user addr c text nz at later zero h = absurd (omega arith)
reads_on user addr c text nz at later (suc limit) h = rw (at, nz, later limit (omega arith)) refl

-- System2User of a text with a 0 behind it copies both.
copies_text :
    (user : ℕ → ℕ) (addr len : ℕ) (text behind : List ℕ)
    → IsText text
    → length text < len
    → (user' : ℕ → ℕ) × (system2user user addr len (text ++ (0 ∷ behind))
        ≡ ok (length text + 1, user'))
      × Holds user addr text user'
unfolding system2user
copies_text user addr zero text behind t h = absurd (omega arith)
copies_text user addr (suc len) [] behind t h = (
  write_byte user addr 0,
  ap (λ n. ok (n, write_byte user addr 0)) (omega arith),
  record {
    reads =
        λ limit le. stops_at_zero (write_byte user addr 0) addr limit (write_byte_self user addr 0);
    below = λ a lt. write_byte_other user addr a 0 (ground arith);
    above = λ a lt. write_byte_other user addr a 0 (ground arith);
  },
)
copies_text user addr (suc len) (c ∷ cs) behind t h =
    let (user', e, s) =
      copies_text (write_byte user addr c) (addr + 1) len cs behind t.1 (omega arith) in
    (
      user',
      rw (t.0, e) (ap (λ n. ok (n, user')) (omega arith)),
      record {
        reads =
            reads_on user' addr c cs t.0 (s.below addr (omega arith) ∙ write_byte_self user addr c)
              s.reads;
        below = λ a lt. s.below a (omega arith) ∙ write_byte_other user addr a c (ground arith);
        above = λ a lt. s.above a (omega arith) ∙ write_byte_other user addr a c (ground arith);
      },
    )

take-text :
    (text behind : List ℕ) → take (length text + 1) (text ++ (0 ∷ behind)) ≡ text ++ (0 ∷ [])
take-text [] behind = refl
take-text (c ∷ cs) behind =
    let one_more : length (c ∷ cs) + 1 ≡ suc (length cs + 1) = omega arith in
    rw one_more (ap (λ l. c ∷ l) (take-text cs behind))

zeros : (n : ℕ) → 0 < n → replicate {A = ℕ} n 0 ≡ 0 ∷ replicate (n - 1) 0
zeros zero h = absurd (omega arith)
zeros (suc n) h = ap (λ m. 0 ∷ replicate m 0) (omega arith)

prints :
    (k : CallState) (r4 : ℕ) (text : List ℕ)
    → string_at k.user r4 print_limit ≡ text
    → length text ≤ print_limit
    → handle_print_string r4 k ≡ record k { output = k.output ++ (text ++ (0 ∷ [])) }
unfolding handle_print_string user2system
prints k r4 text at short =
    rw (at, zeros (print_limit + 1 - length text) (omega arith))
      (ap (λ l. record k { output = k.output ++ l })
        (take-text text (replicate (print_limit + 1 - length text - 1) 0)))

-- A line that a program reads with ReadString and prints with PrintString comes out as it was typed,
-- with a byte 0 behind it. The line has no byte that the console treats specially and no 0, is
-- shorter than the length given to ReadString, and has at most 255 bytes. In between, user memory
-- has the line at the address, ended by a 0, and is elsewhere as before, and the line is taken off
-- the input.
pub handle_read_string-handle_print_string :
    (k : CallState) (r4 r5 : ℕ) (line rest : List ℕ)
    → IsPlain line
    → IsText line
    → length line < r5
    → length line ≤ print_limit
    → k.input ≡ line ++ (10 ∷ rest)
    → (k' : CallState) × (handle_read_string r4 r5 k ≡ ok (some k'))
      × Holds k.user r4 line k'.user
      × (k'.input ≡ rest)
      × (handle_print_string r4 k' ≡ record k' { output = k.output ++ (line ++ (0 ∷ [])) })
unfolding handle_read_string
handle_read_string-handle_print_string k r4 r5 line rest plain text fits short typed =
    let (user, e, held) =
      copies_text k.user r4 r5 line (replicate (r5 - length line - 1) 0) text fits in
    let k' : CallState = record k { input = rest; user = user } in
    (
      k',
      rw
          (
            handle_read_string,
            typed,
            read-plain r5 line rest fits plain,
            zeros (r5 - length line) (omega arith),
            e,
          )
          refl,
      held,
      refl,
      prints k' r4 line (held.reads print_limit short) short,
    )
