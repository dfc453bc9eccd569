-- ===== src/Runtime/Safe.antt =====
-- The lines that the commands of internal/proxy/runtime.go write to the socket.
use mathlib.Core.List.{reverse, reverse-append}
use portguard_v.Base.{
  ℕ, Bool, true, not, ◌&&◌, ◌||◌, List, [], ◌∷◌, ◌++◌, Text, codes, eqb, eqb_iff, is_empty, all_of,
  trim_left, All, ◌≡◌, refl, inl, inr, Bool-cases, arith, ◌==◌,
}
use portguard_v.Service.Apply.{trim_newlines}
use portguard_v.Runtime.{
  is_name_char, is_name, Sent, Answers, command_line, send_command, is_server_state,
  set_server_state, switch_server, enable_server, disable_server, Request, set_state, enable,
  disable, serve,
}

-- A letter, a digit or one of `_.-`, a blank or a slash.
abbrev pub is_command_char : ℕ → Bool
is_command_char c = is_name_char c || (c == b' ' || c == b'/')

-- A line is one command of harmless characters.
abbrev pub IsCommand : Text → Type 0
IsCommand line = (cmd : Text) × (line ≡ cmd ++ codes "\n") × (all_of is_command_char cmd ≡ true)

all_of-append :
    (p : ℕ → Bool) (s t : Text) → all_of p s ≡ true → all_of p t ≡ true → all_of p (s ++ t) ≡ true
all_of-append p [] t h k = k
all_of-append p (c ∷ s) t h k =
    let hs : all_of p s ≡ true = ground arith in let rest = all_of-append p s t hs k in ground arith

all_of-reverse : (p : ℕ → Bool) (s : Text) → all_of p s ≡ true → all_of p (reverse s) ≡ true
all_of-reverse p [] h = refl
all_of-reverse p (c ∷ s) h =
    let hs : all_of p s ≡ true = ground arith in
    let hc : all_of p (c ∷ []) ≡ true = ground arith in
    rw (reverse-append (c ∷ []) s) (all_of-append p (reverse s) (c ∷ []) (all_of-reverse p s hs) hc)

all_of-trim_left : (p q : ℕ → Bool) (s : Text) → all_of p s ≡ true → all_of p (trim_left q s) ≡ true
unfolding trim_left
all_of-trim_left p q [] h = refl
all_of-trim_left p q (c ∷ s) h =
    let hs : all_of p s ≡ true = ground arith in
    elim (Bool-cases (q c)) [ inl y ↦ rw y (all_of-trim_left p q s hs) | inr n ↦ rw n h ]

all_of-trim_newlines :
    (p : ℕ → Bool) (s : Text) → all_of p s ≡ true → all_of p (trim_newlines s) ≡ true
unfolding trim_newlines
all_of-trim_newlines p s h =
    all_of-reverse p (trim_left (λ c. c == b'\n') (reverse s))
      (all_of-trim_left p (λ c. c == b'\n') (reverse s) (all_of-reverse p s h))

command_line-IsCommand :
    (cmd : Text) → all_of is_command_char cmd ≡ true → IsCommand (command_line cmd)
command_line-IsCommand cmd h = (trim_newlines cmd, refl, all_of-trim_newlines is_command_char cmd h)

and_left : (p q : Bool) → (p && q) ≡ true → p ≡ true
and_left p q h = ground arith

and_right : (p q : Bool) → (p && q) ≡ true → q ≡ true
and_right p q h = ground arith

name_chars : (s : Text) → all_of is_name_char s ≡ true → all_of is_command_char s ≡ true
name_chars [] h = refl
name_chars (c ∷ s) h =
    let here : is_name_char c ≡ true = and_left (is_name_char c) (all_of is_name_char s) h in
    let rest = name_chars s (and_right (is_name_char c) (all_of is_name_char s) h) in
    rw (here, rest) refl

is_name-chars : (s : Text) → is_name s ≡ true → all_of is_command_char s ≡ true
is_name-chars s h = name_chars s (and_right (not (is_empty s)) (all_of is_name_char s) h)

state_chars : (s : Text) → is_server_state s ≡ true → all_of is_command_char s ≡ true
state_chars s h = elim (Bool-cases (eqb s (codes "ready"))) [
  | inl e ↦ rw ((eqb_iff s (codes "ready")).0 e) refl
  | inr n ↦ elim (Bool-cases (eqb s (codes "drain"))) [
    | inl e ↦ rw ((eqb_iff s (codes "drain")).0 e) refl
    | inr o ↦
        let last : eqb s (codes "maint") ≡ true = ground arith in
        rw ((eqb_iff s (codes "maint")).0 last) refl
  ]
]

All-snoc :
    (sent : Sent) (l : Text) → All IsCommand sent → IsCommand l → All IsCommand (sent ++ l ∷ [])
All-snoc [] l h k = (k, tt)
All-snoc (x ∷ sent) l (h, hs) k = (h, All-snoc sent l hs k)

-- The characters of a command in four parts.
four_chars :
    (a b c d : Text)
    → all_of is_command_char a ≡ true
    → all_of is_command_char b ≡ true
    → all_of is_command_char c ≡ true
    → all_of is_command_char d ≡ true
    → all_of is_command_char (a ++ (b ++ (c ++ d))) ≡ true
four_chars a b c d ha hb hc hd =
    all_of-append is_command_char a (b ++ (c ++ d)) ha
      (all_of-append is_command_char b (c ++ d) hb (all_of-append is_command_char c d hc hd))

set_server_state-IsCommand :
    (answers : Answers) (backend server state : Text) (sent : Sent)
    → All IsCommand sent
    → All IsCommand (set_server_state answers backend server state sent).1
unfolding set_server_state send_command
set_server_state-IsCommand answers backend server state sent h =
    elim (Bool-cases (is_server_state state)) [
      | inr n ↦ rw n h
      | inl y ↦ elim (Bool-cases (is_name backend && is_name server)) [
        | inr n ↦ rw (y, n) h
        | inl v ↦
            let b = is_name-chars backend (and_left (is_name backend) (is_name server) v) in
            let s = is_name-chars server (and_right (is_name backend) (is_name server) v) in
            let end =
              all_of-append is_command_char (codes " state ") state refl (state_chars state y) in
            let chars =
              four_chars (codes "set server ") backend (codes "/")
                (server ++ (codes " state " ++ state)) refl b refl
                (all_of-append is_command_char server (codes " state " ++ state) s end) in
            rw (y, v) (All-snoc sent _ h (command_line-IsCommand _ chars))
      ]
    ]

switch_server-IsCommand :
    (answers : Answers) (verb backend server : Text) (sent : Sent)
    → all_of is_command_char verb ≡ true
    → All IsCommand sent
    → All IsCommand (switch_server answers verb backend server sent).1
unfolding switch_server send_command
switch_server-IsCommand answers verb backend server sent w h =
    elim (Bool-cases (is_name backend && is_name server)) [
      | inr n ↦ rw n h
      | inl v ↦
          let b = is_name-chars backend (and_left (is_name backend) (is_name server) v) in
          let s = is_name-chars server (and_right (is_name backend) (is_name server) v) in
          rw v (
            All-snoc sent _ h
              (command_line-IsCommand _ (four_chars verb backend (codes "/") server w b refl s)))
    ]

-- Whatever names and states are asked for, and whatever the socket answers, every line that is
-- written to it is one command of letters, digits, `_`, `.`, `-`, blanks and slashes, with no second
-- command in it. The client has written no other line before.
pub serve-IsCommand :
    (answers : Answers) (requests : List Request) (sent : Sent)
    → All IsCommand sent
    → All IsCommand (serve answers requests sent)
unfolding serve enable_server disable_server
serve-IsCommand answers [] sent h = h
serve-IsCommand answers (set_state b s state ∷ rs) sent h =
    serve-IsCommand answers rs _ (set_server_state-IsCommand answers b s state sent h)
serve-IsCommand answers (enable b s ∷ rs) sent h =
    serve-IsCommand answers rs _
      (switch_server-IsCommand answers (codes "enable server ") b s sent refl h)
serve-IsCommand answers (disable b s ∷ rs) sent h =
    serve-IsCommand answers rs _
      (switch_server-IsCommand answers (codes "disable server ") b s sent refl h)
