-- ===== src/Runbooks/Quoting.antt =====
-- What a shell makes of a rendered command (packages/runbooks/runbook.go).
use Prim.Native.Char.{Char, code}
use Prim.Native.String.{◌++◌ as text_append}
use text.Mathlib.TextEquality.{Char-path}
use text.Mathlib.TextLemmas.{cons-append, nil-append, append_assoc as text_assoc}
use vpstools.Base.{
  ◌≡◌, refl, ap, ◌∙◌, String, Bool, true, false, not, ◌&&◌, List, [], ◌∷◌, ◌++◌, map, eqb,
  Bool-cases, inl, inr, eqb_iff,
}
use vpstools.Runbooks.Values.{every}
use vpstools.Runbooks.Params.{Params, Piece, chunk, token, value_of, pieces, validate_params}
use vpstools.Runbooks.Render.{escape_quotes, shell_quote, render, render_command}
use vpstools.Runbooks.Types.{Texts, Runbook, accepted, >>=-accepted}
use vpstools.Runbooks.Shell.{
  Mode, Sym, literal, step, emit, read, is_bare, all_bare, literals, Slot, fixed, read_template,
  fill, blank, word, escaped, single, double, double_escaped, double_dollar, dollar, opened, less,
  comment, beyond,
}

-- The text that stands for a quote within quotes.
quote_text :
    (t : String)
    → text_append "'\\''" t ≡ String.◌∷◌ "'" (String.◌∷◌ "\\" (String.◌∷◌ "'" (String.◌∷◌ "'" t)))
quote_text t =
    cons-append "'" "\\''" t
    ∙ ap (String.◌∷◌ "'") (
        cons-append "\\" "''" t
        ∙ ap (String.◌∷◌ "\\") (
            cons-append "'" "'" t
            ∙ ap (String.◌∷◌ "'") (cons-append "'" "" t ∙ ap (String.◌∷◌ "'") (nil-append t))))

read-quote_text : (t : String) → read single (text_append "'\\''" t) ≡ literal "'" ∷ read single t
unfolding read emit step
read-quote_text t = rw (quote_text t)

read-single-other :
    (c : Char) (s : String)
    → eqb (code c) 39 ≡ false
    → read single (String.◌∷◌ c s) ≡ literal c ∷ read single s
unfolding read emit step
read-single-other c s other = rw other

read-escape_quotes :
    (v t : String) → read single (text_append (escape_quotes v) t) ≡ literals v ++ read single t
unfolding escape_quotes
read-escape_quotes String.[] t = rw (nil-append t)
read-escape_quotes (String.◌∷◌ c v) t = elim (Bool-cases (eqb (code c) 39)) [
  | inl same ↦ rw (
    same,
    text_assoc "'\\''" (escape_quotes v) t,
    read-quote_text,
    read-escape_quotes v t,
    Char-path c "'" ((eqb_iff (code c) 39).0 same),
  )
  | inr other ↦ rw (
    other,
    cons-append c (escape_quotes v) t,
    read-single-other c (text_append (escape_quotes v) t) other,
    read-escape_quotes v t,
  )
]

-- A quote opens a quoted text wherever a token may stand.
read-open : (m : Mode) (s : String) → is_bare m ≡ true → read m (String.◌∷◌ "'" s) ≡ read single s
unfolding read emit step is_bare
read-open blank s h = refl
read-open word s h = refl
read-open opened s h = refl
read-open less s h = refl
read-open escaped s h = cc
read-open single s h = cc
read-open double s h = cc
read-open double_escaped s h = cc
read-open double_dollar s h = cc
read-open dollar s h = cc
read-open comment s h = cc
read-open beyond s h = cc

shell_quote_text :
    (v t : String)
    → text_append (shell_quote v) t
      ≡ String.◌∷◌ "'" (text_append (escape_quotes v) (String.◌∷◌ "'" t))
unfolding shell_quote
shell_quote_text v t =
    text_assoc "'" (text_append (escape_quotes v) "'") t
    ∙ cons-append "'" "" (text_append (text_append (escape_quotes v) "'") t)
    ∙ ap (String.◌∷◌ "'") (
        nil-append (text_append (text_append (escape_quotes v) "'") t)
        ∙ text_assoc (escape_quotes v) "'" t
        ∙ ap (text_append (escape_quotes v))
            (cons-append "'" "" t ∙ ap (String.◌∷◌ "'") (nil-append t)))

read-close : (t : String) → read single (String.◌∷◌ "'" t) ≡ read word t
unfolding read emit step
read-close t = refl

-- A value that is quoted where a token stands bare is read as literal text, whatever it holds.
read-shell_quote :
    (m : Mode) (v t : String)
    → is_bare m ≡ true
    → read m (text_append (shell_quote v) t) ≡ literals v ++ read word t
read-shell_quote m v t h =
    rw
      (shell_quote_text v t, read-open m _ h, read-escape_quotes v (String.◌∷◌ "'" t), read-close t)

fill-fixed : (r : Params) (l : List Sym) (k : List Slot) → fill r (map fixed l ++ k) ≡ l ++ fill r k
unfolding fill
fill-fixed r [] k = refl
fill-fixed r (x ∷ l) k = ap (◌∷◌ x) (fill-fixed r l k)

read-cons :
    (m : Mode) (c : Char) (s : String)
    → read m (String.◌∷◌ c s) ≡ emit m c ++ read (step m (code c)) s
unfolding read
read-cons m c s = refl

&&-left : (a b : Bool) → (a && b) ≡ true → a ≡ true
&&-left true b h = refl
&&-left false b h = cc

&&-right : (a b : Bool) → (a && b) ≡ true → b ≡ true
&&-right true b h = h
&&-right false b h = cc

-- A rendered command is read as its template with the values in the slots.
read-render :
    (r : Params) (m : Mode) (ps : List Piece)
    → all_bare m ps ≡ true
    → read m (render r ps) ≡ fill r (read_template m ps)
unfolding render read_template all_bare read fill
read-render r m [] h = refl
read-render r m (chunk c ∷ ps) h =
    rw (fill-fixed r (emit m c) (read_template (step m (code c)) ps))
      (ap (◌++◌ (emit m c)) (read-render r (step m (code c)) ps h))
read-render r m (token name ∷ ps) h =
    read-shell_quote m (value_of r name) (render r ps) (&&-left _ _ h)
    ∙ ap (◌++◌ (literals (value_of r name))) (read-render r word ps (&&-right _ _ h))

-- If every token of a runbook's command stands bare (a part of a word outside quotes and comments), and
-- the command is rendered, then a POSIX shell reads the rendered command as the author wrote it, each
-- token replaced by the characters of its resolved value as literal text.
pub render_command-reads :
    (t : Texts) (rb : Runbook) (params : Params) (command : String)
    → all_bare blank (pieces rb.command) ≡ true
    → render_command t rb params ≡ accepted command
    → (r : Params) × (validate_params t rb params ≡ accepted r)
      × (read blank command ≡ fill r (read_template blank (pieces rb.command)))
unfolding render_command
render_command-reads t rb params command bare h =
    let (r, resolved, same) = >>=-accepted (validate_params t rb params) _ h in
    let rendered : command ≡ render r (pieces rb.command) = cc same in
    (r, resolved, ap (read blank) rendered ∙ read-render r blank (pieces rb.command) bare)

escape_quotes-plain : (v : String) → every (λ c. not (eqb c 39)) v ≡ true → escape_quotes v ≡ v
unfolding escape_quotes every
escape_quotes-plain String.[] h = refl
escape_quotes-plain (String.◌∷◌ c v) h = elim (Bool-cases (eqb (code c) 39)) [
  | inl same ↦ absurd (no_quote same h)
  | inr other ↦ rw other (ap (String.◌∷◌ c) (escape_quotes-plain v (&&-right _ _ h)))
]
  where
    no_quote :
        eqb (code c) 39 ≡ true → (not (eqb (code c) 39) && every (λ c. not (eqb c 39)) v) ≡ true → ⊥
    no_quote e h = cc (e, h)

-- A token that stands within single quotes: its value is read as a part of the command, active
-- characters included, if it holds no single quote itself.
pub single_quoted_value :
    (v t : String)
    → every (λ c. not (eqb c 39)) v ≡ true
    → read single (text_append (shell_quote v) t) ≡ read word (text_append v (String.◌∷◌ "'" t))
single_quoted_value v t h = rw (shell_quote_text v t, read-close, escape_quotes-plain v h)
