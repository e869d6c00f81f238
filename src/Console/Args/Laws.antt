-- ===== src/Console/Args/Laws.antt =====
-- What the parsed command lines hold.
use simple_remote.Base.{
  ◌≡◌, refl, inl, inr, true, some, List, [], ◌∷◌, arith, codes, Option-cases, Bool-cases, subst,
  if◌then◌else◌,
}
use simple_remote.Base.Text.{Str}
use simple_remote.Host.Register.{is_host_id}
use simple_remote.Console.Args.{
  HostArgs, host_flags, set_host_flag, parse_host_args, ViewerArgs, ViewerFlags, viewer_flags,
  set_viewer_flag, viewer_args, viewer_defaults, parse_viewer_args,
}

-- The command lines with every flag
abbrev pub host_command : HostArgs → List Str
host_command a =
    codes "--server"
    ∷ a.server
    ∷ codes "--name"
    ∷ a.name
    ∷ (if a.once then codes "--once" ∷ [] else [])

abbrev pub viewer_command : ViewerArgs → List Str
viewer_command a =
    codes "--server"
    ∷ a.server
    ∷ codes "--id"
    ∷ a.id
    ∷ codes "--code"
    ∷ a.code
    ∷ codes "--name"
    ∷ a.name
    ∷ []

-- The host's command line with every flag is read back, whatever the texts are, also when they look
-- like flags.
pub parse_host_args-host_command : (a : HostArgs) → parse_host_args (host_command a) ≡ some a
unfolding parse_host_args host_flags set_host_flag
parse_host_args-host_command a = elim (Bool-cases a.once) [
  | inl one ↦ rw (one) refl
  | inr many ↦ rw (many) refl
]

viewer_args_sound :
    (f : ViewerFlags) (a : ViewerArgs) → viewer_args f ≡ some a → is_host_id a.id ≡ true
unfolding viewer_args
viewer_args_sound f a e = elim (Option-cases f.id) [
  | inl none_given ↦ absurd (ground (arith, none_given))
  | inr (id, given) ↦ elim (Bool-cases (is_host_id id)) [
    | inr bad ↦ absurd (ground (arith, given, bad))
    | inl good ↦ elim (Option-cases f.server) [
      | inl no_server ↦ absurd (ground (arith, given, good, no_server))
      | inr (server, s) ↦ elim (Option-cases f.code) [
        | inl no_code ↦ absurd (ground (arith, given, good, s, no_code))
        | inr (code, c) ↦
            let made : id ≡ a.id = ground (arith, given, good, s, c) in
            subst (λ i. is_host_id i ≡ true) made good
      ]
    ]
  ]
]

-- The viewer's command line with every flag is read back when its id is one, and the id of every
-- command line that is read is one.
pub parse_viewer_args-viewer_command :
    (a : ViewerArgs)
    → (is_host_id a.id ≡ true → parse_viewer_args (viewer_command a) ≡ some a)
      × ((args : List Str) → parse_viewer_args args ≡ some a → is_host_id a.id ≡ true)
unfolding parse_viewer_args viewer_flags set_viewer_flag viewer_args
parse_viewer_args-viewer_command a = (
  λ good. rw (good) refl,
  λ args e. elim (Option-cases (viewer_flags viewer_defaults args)) [
    | inl bad ↦ absurd (ground (arith, bad))
    | inr (f, read) ↦ viewer_args_sound f a (ground (arith, read))
  ],
)
