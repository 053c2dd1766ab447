-- ===== src/Parser/Cut/Field.antt =====
-- logging/parse.go: the open field inside the text, and what a character makes of it.
use logd_go.Base.{
  ℕ, ◌+◌, ◌<◌, ◌≡◌, ◌≢◌, inl, inr, refl, sym, subst, ap, ◌∙◌, true, false, some, [], ◌∷◌, ◌++◌,
  Bytes, length, ◌==◌, arith, append_assoc, append-nil, length-append,
}
use logd_go.Log.{Log}
use logd_go.Parser.State.{State, Parser}
use logd_go.Parser.Run.{next}
use logd_go.Parser.Safety.{has_key, Inv}
use logd_go.Parser.Total.{next-Good, Good-some}
use logd_go.Parser.Embed.{embed, carried}
use logd_go.Parser.Append.{next-Simulates}
use logd_go.Parser.Cut.{odd_in, field_at, Kept, fresh-Kept}
use logd_go.Parser.Cut.Steps.{next-After}
use logd_go.Parser.Cut.Header.{grown}

-- The parser with the field at w open, behind the text of pre and before the text of post.
abbrev pub at : Bytes → State → Log → Bytes → Bytes → Parser
at pre st cur w post = record {
  state = st;
  start = length pre;
  end = length pre + length w;
  raw = pre ++ (w ++ post);
  current = cur;
}

-- The field can be read again, and the states behind a key have a property.
pub record Open (st : State) (cur : Log) (w : Bytes) : Type 0 where
  pub kept : Kept st cur w
  pub keyed : has_key st ≡ true → cur.props ≢ []

positive : (w : Bytes) → w ≢ [] → 0 < length w
positive [] n = absurd (n refl)
positive (c ∷ w) n = omega arith

pub field-Inv :
    (st : State) (cur : Log) (w post : Bytes)
    → Open st cur w
    → Inv (length w) (w ++ post) (field_at st cur w post)
field-Inv st cur w post o = record {
  same_raw = refl;
  ordered = ground arith;
  reached = ground arith;
  multi = λ e. positive w (o.kept.begun e);
  keyed = o.keyed;
}

pub at-Inv :
    (pre : Bytes) (st : State) (cur : Log) (w post : Bytes)
    → Open st cur w
    → Inv (length pre + length w) (pre ++ (w ++ post)) (at pre st cur w post)
at-Inv pre st cur w post o = record {
  same_raw = refl;
  ordered = ground arith;
  reached = ground arith;
  multi = λ e. omega (arith, positive w (o.kept.begun e));
  keyed = o.keyed;
}

-- The step of the parser in the whole text, from the one on the field alone.
embed-at :
    (pre : Bytes) (st : State) (cur : Log) (w post : Bytes)
    → embed pre [] (field_at st cur w post) ≡ at pre st cur w post
embed-at pre st cur w post = ground (arith, append-nil (w ++ post))

embed-grown :
    (pre : Bytes) (st : State) (cur : Log) (w : Bytes) (r : ℕ) (post : Bytes) (q : Parser)
    → q ≡ grown cur w r post st
    → embed pre [] q ≡ at pre st cur (w ++ r ∷ []) post
embed-grown pre st cur w r post q g =
    ground (
      arith,
      g,
      append-nil (w ++ (r ∷ post)),
      append_assoc w (r ∷ []) post,
      length-append w (r ∷ []),
    )

embed-moved :
    (pre w : Bytes) (r : ℕ) (post : Bytes) (q : Parser)
    → q.start ≡ length w + 1
    → q.end ≡ length w + 1
    → q.raw ≡ w ++ (r ∷ post)
    → embed pre [] q ≡ at (pre ++ (w ++ r ∷ [])) q.state q.current [] post
embed-moved pre w r post q a b c = ground (
  arith,
  append-nil (w ++ (r ∷ post)),
  append_assoc w (r ∷ []) post,
  append_assoc pre (w ++ r ∷ []) post,
  length-append w (r ∷ []),
  length-append pre (w ++ r ∷ []),
)

-- The parser does in the whole text what it does on the field alone.
next-at :
    (pre : Bytes) (st : State) (cur : Log) (w : Bytes) (r : ℕ) (post : Bytes) (q : Parser)
    {t : Parser}
    → next (field_at st cur w (r ∷ post)) r ≡ some q
    → embed pre [] q ≡ t
    → next (at pre st cur w (r ∷ post)) r ≡ some t
next-at pre st cur w r post q e f =
    ap (λ x. next x r) (sym (embed-at pre st cur w (r ∷ post)))
    ∙ next-Simulates pre [] (field_at st cur w (r ∷ post)) r (λ z. cc)
    ∙ ap (carried pre []) e
    ∙ ap some f

pub record Stepped (pre : Bytes) (st : State) (cur : Log) (w : Bytes) (r : ℕ) (post : Bytes)
    : Type 0 where
  pub pre' : Bytes
  pub st' : State
  pub cur' : Log
  pub w' : Bytes
  pub steps : next (at pre st cur w (r ∷ post)) r ≡ some (at pre' st' cur' w' post)
  pub same : pre' ++ w' ≡ (pre ++ w) ++ r ∷ []
  pub open' : Open st' cur' w'

pub next-Stepped :
    (pre : Bytes) (st : State) (cur : Log) (w : Bytes) (r : ℕ) (post : Bytes)
    → Open st cur w
    → r ≢ b'\n'
    → odd_in st (0 == length w) r ≡ false
    → Stepped pre st cur w r post
next-Stepped pre st cur w r post o n d =
    let p = field_at st cur w (r ∷ post) in
    let (q, e, v) = Good-some (next p r) (
      next-Good r p (field-Inv st cur w (r ∷ post) o)
        (ground (arith, length-append w (r ∷ post)))) in
    elim (next-After cur w r post st q o.kept n d e) [
      | inl (st', g, k) ↦ record {
        pre' = pre;
        st' = st';
        cur' = cur;
        w' = w ++ r ∷ [];
        steps = next-at pre st cur w r post q e (embed-grown pre st' cur w r post q g);
        same = sym (append_assoc pre w (r ∷ []));
        open' = record {
          kept = k;
          keyed = subst (λ (x : Parser). has_key x.state ≡ true → x.current.props ≢ []) g v.keyed;
        };
      }
      | inr (a, b, c, m) ↦ record {
        pre' = pre ++ (w ++ r ∷ []);
        st' = q.state;
        cur' = q.current;
        w' = [];
        steps = next-at pre st cur w r post q e (embed-moved pre w r post q a b c);
        same = append-nil (pre ++ (w ++ r ∷ [])) ∙ sym (append_assoc pre w (r ∷ []));
        open' = record { kept = fresh-Kept q.state q.current m; keyed = v.keyed };
      }
    ]
