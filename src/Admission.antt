-- ===== src/Admission.antt =====
-- admission: the webhook that checks the requests to the Kubernetes API against the rules that are
-- bound to their objects, and the alerts that it sends.
pub mod Rules
pub mod Binding
pub mod Exporter
pub mod Owner
pub mod Webhook
pub mod Server
