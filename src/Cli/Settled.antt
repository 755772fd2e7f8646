-- ===== src/Cli/Settled.antt =====
-- What `parse_options` of ag_src/options.c promises of the options that it has settled.
use libag.Common.{◌≡◌, ◌≢◌, Bool, true, false, ◌&&◌, if◌then◌else◌, refl, arith}
use libag.Cli.{
  CliOptions, Parser, Parsing, going, exited, faulty, unfinished, as_size, case_default,
  case_sensitive, case_insensitive, case_smart, print_nothing, ◌and_then◌,
}
use libag.Cli.Switch.{with_opts}
use libag.Cli.Settle.{settle_casing}
use libag.Cli.Output.{
  settle_context, settle_ackmate, settle_vimgrep, settle_parallel, is_default, settle_group,
  settle_stream, settle_output, is_positive,
}

-- The process goes on in a state that satisfies the predicate, or it exits.
abbrev pub Ends : {A : Type 0} → (A → Type 0) → Parsing A → Type 0
Ends P (going a) = P a
Ends P (exited status) = Unit
Ends P faulty = ⊥
Ends P unfinished = ⊥

pub Ends-and_then :
    {A B : Type 0} (P : A → Type 0) (Q : B → Type 0) (m : Parsing A) (f : A → Parsing B)
    → Ends P m
    → ((a : A) → P a → Ends Q (f a))
    → Ends Q (m and_then f)
Ends-and_then P Q (going a) f p next = next a p
Ends-and_then P Q (exited status) f p next = tt
Ends-and_then P Q faulty f p next = absurd p
Ends-and_then P Q unfinished f p next = absurd p

-- The two branches of a step.
pub if-holds :
    {A : Type 0} (P : A → Type 0) (b : Bool) (x y : A)
    → (b ≡ true → P x)
    → (b ≡ false → P y)
    → P (if b then x else y)
if-holds P true x y p q = p refl
if-holds P false x y p q = q refl

-- What holds of the options from `settle_context`, `settle_ackmate`, `settle_vimgrep`,
-- `settle_parallel` and `settle_stream` on.
abbrev pub HasContext : CliOptions → Type 0
HasContext o =
    is_positive o.context ≡ true → (o.before ≡ as_size o.context) × (o.after ≡ as_size o.context)

abbrev pub FitsAckmate : CliOptions → Type 0
FitsAckmate o = o.ackmate ≡ true → (o.color ≡ false) × (o.search_stream ≡ false)

abbrev pub FitsVimgrep : CliOptions → Type 0
FitsVimgrep o =
    o.vimgrep ≡ true
    → (o.color ≡ false)
      × (o.search_stream ≡ false)
      × (o.print_path ≡ print_nothing)
      × (o.print_break ≡ false)

abbrev pub FitsParallel : CliOptions → Type 0
FitsParallel o = o.parallel ≡ true → o.search_stream ≡ false

abbrev pub FitsStream : CliOptions → Type 0
FitsStream o = o.search_stream ≡ true → (o.print_path ≡ print_nothing) × (o.print_break ≡ false)

pub record IsConsistent (o : CliOptions) : Type 0 where
  pub of_context : HasContext o
  pub of_ackmate : FitsAckmate o
  pub of_vimgrep : FitsVimgrep o
  pub of_parallel : FitsParallel o
  pub of_stream : FitsStream o

pub true_not_false : {A : Type 0} (b : Bool) → b ≡ true → b ≡ false → A
true_not_false true e f = absurd (ground (arith, f))
true_not_false false e f = absurd (ground (arith, e))

settle_context-HasContext : (o : CliOptions) → HasContext (settle_context o)
unfolding settle_context
settle_context-HasContext o =
    if-holds HasContext (is_positive o.context) _ o (λ e h. (refl, refl))
      (λ e h. true_not_false (is_positive o.context) h e)

settle_ackmate-FitsAckmate :
    (p : Parser)
    → HasContext p.opts
    → HasContext (settle_ackmate p).opts × FitsAckmate (settle_ackmate p).opts
unfolding settle_ackmate with_opts
settle_ackmate-FitsAckmate p c =
    if-holds (λ q. HasContext q.opts × FitsAckmate q.opts) p.opts.ackmate _ p
      (λ e. (c, λ h. (refl, refl))) (λ e. (c, λ h. true_not_false p.opts.ackmate h e))

settle_vimgrep-FitsVimgrep :
    (p : Parser)
    → HasContext p.opts × FitsAckmate p.opts
    → HasContext (settle_vimgrep p).opts
      × FitsAckmate (settle_vimgrep p).opts
      × FitsVimgrep (settle_vimgrep p).opts
unfolding settle_vimgrep with_opts
settle_vimgrep-FitsVimgrep p (c, a) =
    if-holds (λ q. HasContext q.opts × FitsAckmate q.opts × FitsVimgrep q.opts) p.opts.vimgrep _ p
      (λ e. (c, (λ h. (refl, refl)), λ h. (refl, refl, refl, refl)))
      (λ e. (c, a, λ h. true_not_false p.opts.vimgrep h e))

abbrev Fits : CliOptions → Type 0
Fits o = HasContext o × FitsAckmate o × FitsVimgrep o × FitsParallel o

settle_parallel-Fits :
    (o : CliOptions) → HasContext o × FitsAckmate o × FitsVimgrep o → Fits (settle_parallel o)
unfolding settle_parallel
settle_parallel-Fits o (c, a, v) =
    if-holds Fits o.parallel _ o
      (λ e. (c, (λ h. ((a h).0, refl)), (λ h. ((v h).0, refl, (v h).2, (v h).3)), λ h. refl))
      (λ e. (c, a, v, λ h. true_not_false o.parallel h e))

settle_group-Fits : (group : Bool) (o : CliOptions) → Fits o → Fits (settle_group group o)
unfolding settle_group
settle_group-Fits group o (c, a, v, l) =
    if-holds Fits (is_default o.print_path && o.print_break) _ o
      (λ e.
        if-holds Fits group o _ (λ g. (c, a, v, l))
          (λ g.
            (c, a, (λ h. absurd (breaks (is_default o.print_path) o.print_break (v h).3 e)), l)))
      (λ e. (c, a, v, l))
  where
    breaks : (d b : Bool) → b ≡ false → (d && b) ≡ true → ⊥
    breaks d b f e = ground (arith, f, e)

settle_stream-IsConsistent : (o : CliOptions) → Fits o → IsConsistent (settle_stream o)
unfolding settle_stream
settle_stream-IsConsistent o (c, a, v, l) =
    if-holds IsConsistent o.search_stream _ o
      (λ e. record {
        of_context = c;
        of_ackmate = a;
        of_vimgrep = λ h. ((v h).0, (v h).1, refl, refl);
        of_parallel = l;
        of_stream = λ h. (refl, refl);
      })
      (λ e. record {
        of_context = c;
        of_ackmate = a;
        of_vimgrep = v;
        of_parallel = l;
        of_stream = λ h. true_not_false o.search_stream h e;
      })

pub settle_output-IsConsistent : (p : Parser) → IsConsistent (settle_output p)
unfolding settle_output with_opts
settle_output-IsConsistent p =
    let contexts = with_opts settle_context p in
    let q = settle_vimgrep (settle_ackmate contexts) in
    settle_stream-IsConsistent (settle_group q.group (settle_parallel q.opts)) (
      settle_group-Fits q.group (settle_parallel q.opts) (
        settle_parallel-Fits q.opts (
          settle_vimgrep-FitsVimgrep (settle_ackmate contexts)
            (settle_ackmate-FitsAckmate contexts (settle_context-HasContext p.opts)))))

abbrev pub HasCasing : CliOptions → Type 0
HasCasing o = o.casing ≢ case_default

pub settle_casing-HasCasing : (o : CliOptions) → HasCasing (settle_casing o)
unfolding settle_casing
settle_casing-HasCasing o =
    elim (o.casing) as (λ c. (settle_casing (record o { casing = c })).casing ≢ case_default) [
      | case_default ↦ λ e. ground (arith, e)
      | case_sensitive ↦ λ e. ground (arith, e)
      | case_insensitive ↦ λ e. ground (arith, e)
      | case_smart ↦ λ e. ground (arith, e)
    ]

pub settle_output-HasCasing : (p : Parser) → HasCasing p.opts → HasCasing (settle_output p)
unfolding settle_output settle_context settle_ackmate settle_vimgrep settle_parallel settle_group
    settle_stream with_opts
settle_output-HasCasing p h =
    let contexts = with_opts settle_context p in
    let acked = settle_ackmate contexts in
    let q = settle_vimgrep acked in
    let o = settle_parallel q.opts in
    let c = if-holds HasCasing (is_positive p.opts.context) _ p.opts (λ e. h) (λ e. h) in
    let a = if-holds (λ r. HasCasing r.opts) contexts.opts.ackmate _ contexts (λ e. c) (λ e. c) in
    let v = if-holds (λ r. HasCasing r.opts) acked.opts.vimgrep _ acked (λ e. a) (λ e. a) in
    let l = if-holds HasCasing q.opts.parallel _ q.opts (λ e. v) (λ e. v) in
    let g =
      if-holds HasCasing (is_default o.print_path && o.print_break) _ o
        (λ e. if-holds HasCasing q.group o _ (λ f. l) (λ f. l)) (λ e. l) in
    if-holds HasCasing (settle_group q.group o).search_stream _ (settle_group q.group o) (λ e. g)
      (λ e. g)
