-- ===== src/Webhooks/Automatic/Ensure.antt =====
-- What a successful ensure_automatic_webhook has established.
use integration_efi.Base.{◌≡◌, ◌<>◌, refl, String, Bool, true, Outcome, ok, err}
use integration_efi.Value.{Fields, text_at}
use integration_efi.World.{World, History}
use integration_efi.Api.{
  Error, Context, Client, within, ◌>>◌, return, after, labelled, require, require-eq-ok, Ensures,
  bind-Ensures, lift-Ensures, within-Ensures,
}
use integration_efi.Webhooks.Urls.{normalize_automatic_webhook_url}
use integration_efi.Webhooks.Automatic.{
  Registration, read_automatic_webhook, register_if_needed, points_at, confirm, ensure_at,
  ensure_automatic_webhook, refuse_inputs, automatic_webhook_kind,
}

module _ (w : World) (ctx : Context) (c : Client) where
  -- The last action of a run that ends in `after` is a read of the endpoint that found the
  -- registration in place.
  pub record IsProven (path desired : String) (end_of_run : History) : Type 0 where
    pub before : History
    pub state : Registration
    pub readback : read_automatic_webhook w ctx c path before ≡ (ok state, end_of_run)
    pub in_place : points_at state desired ≡ true

  -- The read back and the check of it, from the outcome of the read.
  checked :
      (kind path desired : String) (out : Registration → Fields)
      (p : Outcome Error Registration × History) (h : History) (e : Registration → Error)
      (t : String) (b : Fields)
      → read_automatic_webhook w ctx c path h ≡ p
      → let r =
          after
            (labelled t p.0, p.1)
            (λ state. require (points_at state desired) (e state) >> return (out state)) in
        r.0 ≡ ok b → IsProven path desired r.1
  checked kind path desired out (ok state, h') h e t b read good =
      let (in_place, same) =
        require-eq-ok (points_at state desired) (e state) (out state) b h' good in
      rw same (record { before = h; state = state; readback = read; in_place = in_place })
  checked kind path desired out (err x, h') h e t b read good = cc

  confirm-IsProven :
      (kind path desired : String) (changed : Bool)
      → Ensures (confirm w ctx c kind path desired changed) (λ out. IsProven path desired)
  unfolding confirm
  confirm-IsProven kind path desired changed = record {
    at =
        λ h b e. checked kind path desired _ (read_automatic_webhook w ctx c path h) h _ _ b refl e;
  }

  ensure_at-IsProven :
      (kind path desired : String)
      → Ensures (ensure_at w ctx c kind path desired) (λ out. IsProven path desired)
  unfolding ensure_at
  ensure_at-IsProven kind path desired =
      bind-Ensures _
        (within ("read " <> kind <> " registration before mutation")
          (read_automatic_webhook w ctx c path))
        _
        λ current.
          bind-Ensures _
            (within ("register " <> kind <> " webhook")
              (register_if_needed w ctx c path desired current))
            _ λ changed. confirm-IsProven kind path desired changed

  -- A success of ensure_automatic_webhook is proven by a readback: the input passed its checks, and
  -- the run ends in a read of the kind's endpoint which found the registration at exactly the
  -- normalized webhook_url.
  pub ensure_automatic_webhook-IsProven :
      (input : Fields)
      → Ensures (ensure_automatic_webhook w ctx c input) (λ out end_of_run.
        (kind : String) × (path : String) × (desired : String) × (refuse_inputs input ≡ ok tt)
        × (automatic_webhook_kind input ≡ ok (kind, path))
        × (normalize_automatic_webhook_url w (text_at input "webhook_url") "webhook_url"
            ≡ ok desired)
        × IsProven path desired end_of_run)
  unfolding ensure_automatic_webhook
  ensure_automatic_webhook-IsProven input = within-Ensures _ _ _ (
      lift-Ensures _ (refuse_inputs input) _ λ u fine.
        lift-Ensures _ (automatic_webhook_kind input) _ λ (kind, path) is_kind.
          lift-Ensures _
            (normalize_automatic_webhook_url w (text_at input "webhook_url") "webhook_url") _
            λ desired is_url. record {
              at = λ h b e. (
                kind,
                path,
                desired,
                fine,
                is_kind,
                is_url,
                (ensure_at-IsProven kind path desired).at h b e,
              );
            })
