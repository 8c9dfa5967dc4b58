-- ===== src/Transfer/Lease/Examples.antt =====
-- An upload that is closed while a segment is being written.
use tdrive.Base.{◌≡◌, refl, true, false}
use tdrive.Transfer.Lease.{
  UploadJobLease, task_closed, new_lease, find_lease, settle_lease, end_upload_request,
  release_upload_job,
}
use tdrive.Transfer.Lease.Closing.{
  upload, settled, closed_job, Steps, stop, next, IsClosable, steps-IsClosable,
}

abbrev writing : UploadJobLease
unfolding settle_lease
writing = (settle_lease false new_lease).1

abbrev closing : UploadJobLease
unfolding release_upload_job writing
closing = (release_upload_job writing).1

turned_away : find_lease closing ≡ task_closed
unfolding find_lease settle_lease release_upload_job writing closing
turned_away = refl

returned_at_the_end : (end_upload_request closing).0 ≡ true
unfolding end_upload_request settle_lease release_upload_job writing closing
returned_at_the_end = refl

abbrev run : Steps (upload new_lease 0 true 0) (upload closing 0 false 0)
unfolding settle_lease release_upload_job writing closing
run =
    next _ (upload writing 0 false 0) _ (settled false new_lease 0 0)
      (next _ (upload closing 0 false 0) _ (closed_job writing 0 0 false) (stop _))

steps-IsClosable_example : IsClosable (upload closing 0 false 0)
steps-IsClosable_example = steps-IsClosable (upload closing 0 false 0) run

closing-IsClosable : IsClosable (upload closing 0 false 0)
closing-IsClosable = steps-IsClosable (upload closing 0 false 0) run

abbrev over : UploadJobLease
unfolding end_upload_request closing
over = (end_upload_request closing).1
